-- ===== src/Multimap/Laws.antt =====
-- What the containers' operations do to the pointers that they hold.
use margot_project.Base.{
  ◌+◌, ◌≤◌, ◌<◌, ◌≡◌, refl, ◌==◌, leb, if◌then◌else◌, b2n, [], ◌∷◌, none, some, arith, count, OpPtr,
  Value,
}
use margot_project.Multimap.{
  Entries, pointers, emplace, lower_bound, until_upper, front, back, Ordered,
}

module _ (f : OpPtr → Value) where
  pub Ordered-le : (lo lo' : Value) (m : Entries) → lo' ≤ lo → Ordered f lo m → Ordered f lo' m
  Ordered-le lo lo' [] h o = tt
  Ordered-le lo lo' ((k, p) ∷ m) h o = (omega arith, o.1, o.2)

  pub emplace-Ordered :
      (p : OpPtr) (lo : Value) (m : Entries)
      → lo ≤ f p
      → Ordered f lo m
      → Ordered f lo (emplace (f p) p m)
  unfolding emplace
  emplace-Ordered p lo [] h o = (h, refl, tt)
  emplace-Ordered p lo ((j, q) ∷ m) h o =
      ground (arith, emplace-Ordered p j m, Ordered-le j (f p) m)

pub count-emplace :
    (p q : OpPtr) (k : Value) (m : Entries)
    → count p (pointers (emplace k q m)) ≡ b2n (q == p) + count p (pointers m)
unfolding emplace
count-emplace p q k [] = ground arith
count-emplace p q k ((j, r) ∷ m) = ground (arith, count-emplace p q k m)

module _ (f : OpPtr → Value) where
  -- A pointer whose key is below the start is not there.
  pub count_below :
      (p : OpPtr) (lo : Value) (m : Entries) → Ordered f lo m → f p < lo → count p (pointers m) ≡ 0
  count_below p lo [] o h = refl
  count_below p lo ((k, q) ∷ m) o h = ground (arith, count_below p k m o.2)

  pub count-lower_bound :
      (p : OpPtr) (a lo : Value) (m : Entries)
      → Ordered f lo m
      → count p (pointers (lower_bound a m)) ≡ (if leb a (f p) then count p (pointers m) else 0)
  unfolding lower_bound
  count-lower_bound p a lo [] o = ground arith
  count-lower_bound p a lo ((k, q) ∷ m) o =
      ground (arith, count-lower_bound p a k m o.2, count_below p k m o.2)

  pub lower_bound-Ordered :
      (a lo : Value) (m : Entries) → Ordered f lo m → Ordered f lo (lower_bound a m)
  unfolding lower_bound
  lower_bound-Ordered a lo [] o = tt
  lower_bound-Ordered a lo ((k, q) ∷ m) o =
      ground (arith, Ordered-le f k lo (lower_bound a m), lower_bound-Ordered a k m o.2)

  pub count-until_upper :
      (p : OpPtr) (b lo : Value) (m : Entries)
      → Ordered f lo m
      → count p (pointers (until_upper b m)) ≡ (if leb (f p) b then count p (pointers m) else 0)
  unfolding until_upper
  count-until_upper p b lo [] o = ground arith
  count-until_upper p b lo ((k, q) ∷ m) o =
      ground (arith, count-until_upper p b k m o.2, count_below p k m o.2)

  -- The first entry has the least key.
  pub front-least :
      (m : Entries) (lo : Value) (p q : OpPtr)
      → Ordered f lo m
      → front m ≡ some p
      → 0 < count q (pointers m)
      → f p ≤ f q
  unfolding front
  front-least [] lo p q o e h = absurd (omega arith)
  front-least ((k, r) ∷ m) lo p q o e h = ground (arith, count_below q k m o.2)

  -- The last entry has the greatest key.
  pub back-greatest :
      (m : Entries) (lo : Value) (p q : OpPtr)
      → Ordered f lo m
      → back m ≡ some p
      → 0 < count q (pointers m)
      → f q ≤ f p
  unfolding back
  back-greatest [] lo p q o e h = absurd (omega arith)
  back-greatest ((k, r) ∷ []) lo p q o e h = ground arith
  back-greatest ((k, r) ∷ (j, s) ∷ m) lo p q o e h =
      ground (arith, back-greatest ((j, s) ∷ m) k p q o.2 e, back-greatest ((j, s) ∷ m) k p s o.2 e)

pub count-front : (m : Entries) (p : OpPtr) → front m ≡ some p → 0 < count p (pointers m)
unfolding front
count-front [] p e = ground arith
count-front ((k, q) ∷ m) p e = ground arith

pub count-back : (m : Entries) (p : OpPtr) → back m ≡ some p → 0 < count p (pointers m)
unfolding back
count-back [] p e = ground arith
count-back ((k, q) ∷ []) p e = ground arith
count-back ((k, q) ∷ d ∷ m) p e = ground (arith, count-back (d ∷ m) p e)

pub front-none : (m : Entries) → front m ≡ none → m ≡ []
unfolding front
front-none [] e = refl
front-none ((k, q) ∷ m) e = ground arith

pub back-none : (m : Entries) → back m ≡ none → m ≡ []
unfolding back
back-none [] e = refl
back-none ((k, q) ∷ []) e = ground arith
back-none ((k, q) ∷ d ∷ m) e = ground (arith, back-none (d ∷ m) e)
