-- ===== src/CircularBuffer/Window.antt =====
-- The circular buffer holds the last observations, in the order of their arrival, as a window that
-- slides over the history.
use margot_project.Base.{
  ℕ, suc, ◌+◌, ◌-◌, ltb, ◌==◌, if◌then◌else◌, true, false, List, [], ◌∷◌, ◌++◌, length, ◌≡◌, refl,
  arith, ◌⊎◌, ap₂, ◌≤◌, ◌<◌, ap, sym, ◌∙◌, Bool-cases, inl, inr,
}
use margot_project.CircularBuffer.{CircularBuffer, set_at, push, get_elem?, back, last}

module _ {A : Type 0} where
  -- The abstract window, oldest observation first: a new one pushes the oldest one out of a full window.
  abbrev pub tail : List A → List A
  tail [] = []
  tail (x ∷ xs) = xs

  abbrev pub slide : ℕ → A → List A → List A
  slide n v w = if ltb (length w) n then w ++ (v ∷ []) else tail w ++ (v ∷ [])

  -- The elements behind the next one to overwrite are older than those in front of it.
  pub record Represents (b : CircularBuffer A) (w : List A) : Type 0 where
    pub newer : List A
    pub older : List A
    pub stored : b.buffer ≡ newer ++ older
    pub next : b.next_element ≡ length newer
    pub window : w ≡ older ++ newer
    pub bounded : length (newer ++ older) ≤ b.maximum_number_element
    pub wrapped :
        (length newer ≡ 0)
        ⊎ ((length (newer ++ older) ≡ b.maximum_number_element)
            × (length newer < b.maximum_number_element))

  length-append : (xs ys : List A) → length (xs ++ ys) ≡ length xs + length ys
  length-append [] ys = omega arith
  length-append (x ∷ xs) ys = ground (arith, length-append xs ys)

  pub append_assoc : (xs ys zs : List A) → (xs ++ ys) ++ zs ≡ xs ++ (ys ++ zs)
  append_assoc [] ys zs = refl
  append_assoc (x ∷ xs) ys zs = ap (λ l. x ∷ l) (append_assoc xs ys zs)

  pub append_nil : (xs : List A) → xs ++ [] ≡ xs
  append_nil [] = refl
  append_nil (x ∷ xs) = ap (λ l. x ∷ l) (append_nil xs)

  set_at-append :
      (xs ys : List A) (y v : A) → set_at (length xs) v (xs ++ (y ∷ ys)) ≡ xs ++ (v ∷ ys)
  unfolding set_at
  set_at-append [] ys y v = refl
  set_at-append (x ∷ xs) ys y v = ap (λ l. x ∷ l) (set_at-append xs ys y v)

  length-window :
      (b : CircularBuffer A) (w newer older : List A)
      → b.buffer ≡ newer ++ older
      → w ≡ older ++ newer
      → length w ≡ length b.buffer
  length-window b w newer older stored window = ground (
    arith,
    ap length window,
    ap length stored,
    length-append older newer,
    length-append newer older,
  )

  zero-nil : (xs : List A) → length xs ≡ 0 → xs ≡ []
  zero-nil [] e = refl
  zero-nil (x ∷ xs) e = absurd (ground arith)

  -- While there is room the buffer is the window.
  push_room :
      (now : ℕ) (v : A) (b : CircularBuffer A) (w : List A)
      → ltb (length b.buffer) b.maximum_number_element ≡ true
      → b.next_element ≡ 0
      → w ≡ b.buffer
      → Represents (push now v b) (slide b.maximum_number_element v w)
  unfolding push
  push_room now v b w room start same =
      rw (same, room)
        (record {
          newer = [];
          older = b.buffer ++ (v ∷ []);
          stored = refl;
          next = start;
          window = sym (append_nil (b.buffer ++ (v ∷ [])));
          bounded = ground (arith, length-append b.buffer (v ∷ []));
          wrapped = inl refl;
        })

  -- In a full buffer the oldest element is overwritten.
  push_full :
      (now : ℕ) (v x : A) (b : CircularBuffer A) (w newer older : List A)
      → ltb (length b.buffer) b.maximum_number_element ≡ false
      → b.buffer ≡ newer ++ (x ∷ older)
      → b.next_element ≡ length newer
      → w ≡ (x ∷ older) ++ newer
      → length (newer ++ (x ∷ older)) ≤ b.maximum_number_element
      → Represents (push now v b) (slide b.maximum_number_element v w)
  unfolding push
  push_full now v x b w newer older room stored next window bounded =
      let lengths = length-append newer (x ∷ older) in
      let written = ap₂ (λ i l. set_at i v l) next stored ∙ set_at-append newer older x v in
      let slid = ap (λ l. tail l ++ (v ∷ [])) window ∙ append_assoc older newer (v ∷ []) in
      let full_w : ltb (length w) b.maximum_number_element ≡ false =
        ground (arith, length-window b w newer (x ∷ older) stored window, room) in
      elim (Bool-cases (suc b.next_element == b.maximum_number_element)) [
        | inl last_one ↦
            let none_older : older ≡ [] =
              zero-nil older
                (ground (arith, ap length stored, lengths, room, bounded, next, last_one)) in
            rw (full_w, room, last_one)
              (record {
                newer = [];
                older = newer ++ (v ∷ []);
                stored = written ∙ ap (λ l. newer ++ (v ∷ l)) none_older;
                next = refl;
                window =
                    slid
                    ∙ ap (λ l. l ++ (newer ++ (v ∷ []))) none_older
                    ∙ sym (append_nil (newer ++ (v ∷ [])));
                bounded = ground (arith, length-append newer (v ∷ []), lengths, bounded);
                wrapped = inl refl;
              })
        | inr not_last ↦
            rw (full_w, room, not_last)
              (record {
                newer = newer ++ (v ∷ []);
                older = older;
                stored = written ∙ sym (append_assoc newer (v ∷ []) older);
                next = ground (arith, next, length-append newer (v ∷ []));
                window = slid;
                bounded = ground (
                  arith,
                  length-append (newer ++ (v ∷ [])) older,
                  length-append newer (v ∷ []),
                  lengths,
                  bounded,
                );
                wrapped = inr (
                  ground (
                    arith,
                    length-append (newer ++ (v ∷ [])) older,
                    length-append newer (v ∷ []),
                    lengths,
                    bounded,
                    room,
                    ap length stored,
                  ),
                  ground (
                    arith,
                    length-append newer (v ∷ []),
                    lengths,
                    bounded,
                    room,
                    next,
                    ap length stored,
                    not_last,
                  ),
                );
              })
      ]

  push_older :
      (now : ℕ) (v : A) (b : CircularBuffer A) (w newer older : List A)
      → 0 < b.maximum_number_element
      → ltb (length b.buffer) b.maximum_number_element ≡ false
      → b.buffer ≡ newer ++ older
      → b.next_element ≡ length newer
      → w ≡ older ++ newer
      → length (newer ++ older) ≤ b.maximum_number_element
      → (length newer ≡ 0)
        ⊎ ((length (newer ++ older) ≡ b.maximum_number_element)
            × (length newer < b.maximum_number_element))
      → Represents (push now v b) (slide b.maximum_number_element v w)
  push_older now v b w newer [] positive room stored next window bounded wrapped =
      absurd (ground (arith, ap length stored, length-append newer [], room, wrapped))
  push_older now v b w newer (x ∷ older) positive room stored next window bounded wrapped =
      push_full now v x b w newer older room stored next window bounded

  push_parts :
      (now : ℕ) (v : A) (b : CircularBuffer A) (w newer older : List A)
      → 0 < b.maximum_number_element
      → b.buffer ≡ newer ++ older
      → b.next_element ≡ length newer
      → w ≡ older ++ newer
      → length (newer ++ older) ≤ b.maximum_number_element
      → (length newer ≡ 0)
        ⊎ ((length (newer ++ older) ≡ b.maximum_number_element)
            × (length newer < b.maximum_number_element))
      → Represents (push now v b) (slide b.maximum_number_element v w)
  push_parts now v b w newer older positive stored next window bounded wrapped =
      elim (Bool-cases (ltb (length b.buffer) b.maximum_number_element)) [
        | inl room ↦
            let unwrapped : length newer ≡ 0 = ground (arith, room, ap length stored, wrapped) in
            let none_newer = zero-nil newer unwrapped in
            push_room now v b w room (next ∙ unwrapped) (
              window
              ∙ ap (λ l. older ++ l) none_newer
              ∙ append_nil older
              ∙ sym (stored ∙ ap (λ l. l ++ older) none_newer))
        | inr room ↦
            push_older now v b w newer older positive room stored next window bounded wrapped
      ]

  -- If a buffer of a size above 0 shows a window of observations, then after `push` it shows the window
  -- that has slid: while the buffer is not full the new value joins it, and then it takes the place of
  -- the oldest one.
  pub push-Represents :
      (now : ℕ) (v : A) (b : CircularBuffer A) (w : List A)
      → 0 < b.maximum_number_element
      → Represents b w
      → Represents (push now v b) (slide b.maximum_number_element v w)
  push-Represents now v b w positive r =
      push_parts now v b w r.newer r.older positive r.stored r.next r.window r.bounded r.wrapped

  get_elem?-last :
      (y : A) (ys older : List A) → get_elem? ((y ∷ ys) ++ older) (length ys) ≡ back (y ∷ ys)
  unfolding get_elem? back
  get_elem?-last y [] older = refl
  get_elem?-last y (z ∷ zs) older = get_elem?-last z zs older

  back-append : (xs ys : List A) (y : A) → back (xs ++ (y ∷ ys)) ≡ back (y ∷ ys)
  unfolding back
  back-append [] ys y = refl
  back-append (x ∷ []) ys y = refl
  back-append (x ∷ z ∷ xs) ys y = back-append (z ∷ xs) ys y

  last_parts :
      (b : CircularBuffer A) (w newer older : List A)
      → b.buffer ≡ newer ++ older
      → b.next_element ≡ length newer
      → w ≡ older ++ newer
      → last b ≡ back w
  unfolding last
  last_parts b w [] older stored next window =
      rw next (ap back (stored ∙ sym (window ∙ append_nil older)))
  last_parts b w (y ∷ ys) older stored next window =
      let wrapped_on : (b.next_element == 0) ≡ false = ground (arith, next) in
      let index : b.next_element - 1 ≡ length ys = ground (arith, next) in
      rw wrapped_on (
        ap₂ get_elem? stored index
        ∙ get_elem?-last y ys older
        ∙ sym (ap back window ∙ back-append older ys y))

  -- `last` returns the newest observation of the window that the buffer shows, and fails only if there is
  -- none.
  last-Represents : (b : CircularBuffer A) (w : List A) → Represents b w → last b ≡ back w
  last-Represents b w r = last_parts b w r.newer r.older r.stored r.next r.window
