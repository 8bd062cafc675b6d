-- ===== src/CircularBuffer/Tests.antt =====
-- A buffer of three elements after four observations.
use margot_project.Base.{ℕ, [], ◌∷◌, some, ◌≡◌, refl, arith, inr}
use margot_project.CircularBuffer.{CircularBuffer, make, set_at, push, get_elem?, last}
use margot_project.CircularBuffer.Window.{slide, Represents, push-Represents}

abbrev full_buffer : CircularBuffer ℕ
full_buffer = push 14 40 (push 13 30 (push 12 20 (push 11 10 (make 10 3))))

full_buffer-Represents : Represents full_buffer (20 ∷ 30 ∷ 40 ∷ [])
unfolding push make set_at
full_buffer-Represents = record {
  newer = 40 ∷ [];
  older = 20 ∷ 30 ∷ [];
  stored = refl;
  next = refl;
  window = refl;
  bounded = omega arith;
  wrapped = inr (refl, omega arith);
}

push-Represents_example :
    Represents
      (push 15 50 full_buffer)
      (slide full_buffer.maximum_number_element 50 (20 ∷ 30 ∷ 40 ∷ []))
unfolding push make
push-Represents_example =
    push-Represents 15 50 full_buffer (20 ∷ 30 ∷ 40 ∷ []) (omega arith) full_buffer-Represents

last_value : last full_buffer ≡ some 40
unfolding last push make set_at get_elem?
last_value = refl
