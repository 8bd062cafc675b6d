-- ===== src/FieldAdaptor/Window.antt =====
-- The window of error coefficients slides over the valid observations, as a circular buffer that is full.
use margot_project.Base.{
  ℕ, zero, suc, ltb, ◌<◌, List, [], ◌∷◌, ◌++◌, Option, none, some, ◌≡◌, refl, arith, length, ap,
  sym, ◌∙◌, subst, inl, inr, Option-cases, false, OpPtr, Value,
}
use margot_project.CircularBuffer.Slots.{length-set_at}
use margot_project.CircularBuffer.{CircularBuffer, push}
use margot_project.CircularBuffer.Window.{
  Represents, push-Represents, slide, tail, append_assoc, append_nil,
}
use margot_project.Statistics.{Numbers, average}
use margot_project.FieldAdaptor.{
  OneSigmaAdaptor, fill, Extractors, Promotions, compute, new, insert, evaluate_error,
  get_error_coefficient, clear_observations,
}

-- What the monitor gives at each call, with the Operating Point of the call.
abbrev pub Observations : Type 0
Observations = List (OpPtr × Option Value)

module _ (ops : Numbers) (inertia : ℕ) where
  -- The window as a circular buffer of the size of the array
  abbrev pub as_buffer : OneSigmaAdaptor → CircularBuffer Value
  as_buffer a = record {
    buffer = a.error_window;
    last_change = 0;
    next_element = a.next_element;
    maximum_number_element = inertia;
  }

  -- An adaptor whose window is a full circular buffer of the observations, oldest first.
  abbrev pub Shows : OneSigmaAdaptor → List Value → Type 0
  Shows a w = Represents (as_buffer a) w × (length a.error_window ≡ inertia) × (length w ≡ inertia)

  -- If the array is as long as the template says, a valid coefficient enters it as
  -- `CircularBuffer::push` enters a value into a full buffer of that size.
  pub insert-push :
      (v : Value) (a : OneSigmaAdaptor)
      → length a.error_window ≡ inertia
      → as_buffer (insert ops inertia (some v) a) ≡ push 0 v (as_buffer a)
  unfolding insert push
  insert-push v a full =
      let no_room : ltb (length a.error_window) inertia ≡ false = ground (arith, full) in
      rw (no_room, insert, push) refl

  length-snoc : (l : List Value) (v : Value) → length (l ++ (v ∷ [])) ≡ suc (length l)
  length-snoc [] v = refl
  length-snoc (x ∷ l) v = ap suc (length-snoc l v)

  length-slide :
      (v : Value) (w : List Value) → 0 < length w → length (tail w ++ (v ∷ [])) ≡ length w
  length-slide v [] h = absurd (omega (arith, h))
  length-slide v (x ∷ w) h = length-snoc w v

  insert-Shows :
      (v : Value) (a : OneSigmaAdaptor) (w : List Value)
      → 0 < inertia
      → Shows a w
      → Shows (insert ops inertia (some v) a) (tail w ++ (v ∷ []))
  unfolding insert
  insert-Shows v a w positive (r, full, full_w) =
      let no_room : ltb (length w) inertia ≡ false = ground (arith, full_w) in
      let slid : slide inertia v w ≡ tail w ++ (v ∷ []) = rw no_room refl in
      (
        subst (λ b. Represents b (tail w ++ (v ∷ []))) (sym (insert-push v a full))
            (subst (Represents (push 0 v (as_buffer a))) slid
              (push-Represents 0 v (as_buffer a) w positive r)),
        length-set_at a.next_element v a.error_window ∙ full,
        length-slide v w (ground (arith, positive, full_w)) ∙ full_w,
      )

  pub length-fill : (n : ℕ) (v : Value) → length (fill n v) ≡ n
  unfolding fill
  length-fill zero v = refl
  length-fill (suc n) v = ap suc (length-fill n v)

  -- Valid coefficients enter one after the other.
  abbrev pub insert_all : List Value → OneSigmaAdaptor → OneSigmaAdaptor
  insert_all [] a = a
  insert_all (v ∷ vs) a = insert_all vs (insert ops inertia (some v) a)

  insert_all-Shows :
      (vs : List Value) (a : OneSigmaAdaptor) (xs ys : List Value)
      → 0 < inertia
      → Shows a (xs ++ ys)
      → length xs ≡ length vs
      → Shows (insert_all vs a) (ys ++ vs)
  insert_all-Shows [] a [] ys positive h e = subst (Shows a) (sym (append_nil ys)) h
  insert_all-Shows [] a (x ∷ xs) ys positive h e = absurd (omega (arith, e))
  insert_all-Shows (v ∷ vs) a [] ys positive h e = absurd (omega (arith, e))
  insert_all-Shows (v ∷ vs) a (x ∷ xs) ys positive h e =
      subst (Shows (insert_all (v ∷ vs) a)) (append_assoc ys (v ∷ []) vs) (
        insert_all-Shows vs (insert ops inertia (some v) a) xs (ys ++ (v ∷ [])) positive
          (subst (Shows (insert ops inertia (some v) a)) (append_assoc xs ys (v ∷ []))
            (insert-Shows v a ((x ∷ xs) ++ ys) positive h))
          (omega (arith, e)))

  -- The coefficient is the average of the array.
  abbrev pub IsAveraged : OneSigmaAdaptor → Type 0
  IsAveraged a = a.average_coefficient_error ≡ average ops a.error_window

  IsAveraged-insert_all :
      (vs : List Value) (a : OneSigmaAdaptor) → IsAveraged a → IsAveraged (insert_all vs a)
  unfolding insert
  IsAveraged-insert_all [] a h = h
  IsAveraged-insert_all (v ∷ vs) a h = IsAveraged-insert_all vs (insert ops inertia (some v) a) refl

  insert_all-IsAveraged :
      (vs : List Value) (a : OneSigmaAdaptor) → 0 < length vs → IsAveraged (insert_all vs a)
  unfolding insert
  insert_all-IsAveraged [] a h = absurd (omega (arith, h))
  insert_all-IsAveraged (v ∷ vs) a h = IsAveraged-insert_all vs (insert ops inertia (some v) a) refl

  module _ (casts : Promotions) (op_utils : Extractors) where
    -- The calls of `evaluate_error`, one after the other.
    abbrev pub run : Observations → OneSigmaAdaptor → OneSigmaAdaptor
    run [] a = a
    run ((op, observed) ∷ obs) a = run obs (evaluate_error ops inertia casts op_utils op observed a)

    -- Their coefficients, as far as they are valid
    abbrev pub coefficients : Observations → List Value
    coefficients [] = []
    coefficients ((op, observed) ∷ obs) = elim (compute ops casts op_utils op observed) [
      | none ↦ coefficients obs
      | some v ↦ v ∷ coefficients obs
    ]

    run-insert_all :
        (obs : Observations) (a : OneSigmaAdaptor) → run obs a ≡ insert_all (coefficients obs) a
    unfolding evaluate_error insert
    run-insert_all [] a = refl
    run-insert_all ((op, observed) ∷ obs) a =
        elim (Option-cases (compute ops casts op_utils op observed)) [
          | inl invalid ↦ rw (invalid, run, coefficients) (run-insert_all obs a)
          | inr (v, valid) ↦
              rw (valid, run, coefficients) (run-insert_all obs (insert ops inertia (some v) a))
        ]

    -- For an adaptor whose array has the length of the template, which is not 0, and shows some window of
    -- coefficients: after calls of `evaluate_error` of which as many are valid as the array is long,
    -- whatever it held before, it shows exactly the coefficients of the valid calls, oldest first, and the
    -- error coefficient is the average of the array.
    pub run-Shows :
        (obs : Observations) (a : OneSigmaAdaptor) (w : List Value)
        → 0 < inertia
        → Shows a w
        → length (coefficients obs) ≡ inertia
        → Shows (run obs a) (coefficients obs)
          × (get_error_coefficient ops inertia (run obs a) ≡ average ops (run obs a).error_window)
    unfolding get_error_coefficient
    run-Shows obs a w positive h e =
        let entered = run-insert_all obs a in
        (
          subst (λ x. Shows x (coefficients obs)) (sym entered)
              (insert_all-Shows (coefficients obs) a w [] positive
                (subst (Shows a) (sym (append_nil w)) h) (h.2 ∙ sym e)),
          subst IsAveraged (sym entered)
              (insert_all-IsAveraged (coefficients obs) a (ground (arith, e, positive))),
        )

    -- While no observation is valid after `clear_observations`, the error coefficient is what it was
    -- before; that of a new adaptor is 1.
    pub clear_observations_keeps :
        (obs : Observations) (a : OneSigmaAdaptor)
        → coefficients obs ≡ []
        → (get_error_coefficient ops inertia (run obs (clear_observations ops inertia a))
            ≡ get_error_coefficient ops inertia a)
          × (get_error_coefficient ops inertia (run obs (new ops inertia)) ≡ ops.one)
    unfolding get_error_coefficient clear_observations new
    clear_observations_keeps obs a e = (
      rw (run-insert_all obs (clear_observations ops inertia a), e) refl,
      rw (run-insert_all obs (new ops inertia), e) refl,
    )

  -- The window of a new adaptor is full of ones.
  pub new-Shows : Shows (new ops inertia) (fill inertia ops.one)
  unfolding new
  new-Shows = (
    record {
      newer = [];
      older = fill inertia ops.one;
      stored = refl;
      next = refl;
      window = sym (append_nil (fill inertia ops.one));
      bounded = ground (arith, length-fill inertia ops.one);
      wrapped = inl refl;
    },
    length-fill inertia ops.one,
    length-fill inertia ops.one,
  )
