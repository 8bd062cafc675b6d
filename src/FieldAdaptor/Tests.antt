-- ===== src/FieldAdaptor/Tests.antt =====
-- A window of two coefficients, and the theorems at it. A coefficient is given in percent.
use margot_project.Base.{◌+◌, ◌-◌, ◌*◌, List, [], ◌∷◌, none, some, ◌≡◌, refl, arith, Value}
use margot_project.CircularBuffer.{push, set_at}
use margot_project.Statistics.{Numbers, average}
use margot_project.FieldAdaptor.{
  OneSigmaAdaptor, fill, Extractors, Promotions, compute, error_of, new, insert, evaluate_error,
  get_error_coefficient, clear_observations,
}
use margot_project.FieldAdaptor.Bounds.{IsInBounds, fresh, evaluates, clears, Reachable-IsInBounds}
use margot_project.FieldAdaptor.Window.{
  Observations, Shows, run, coefficients, run-Shows, clear_observations_keeps, new-Shows, as_buffer,
  insert-push,
}

-- Each quotient is taken as its numerator, which is enough to tell coefficients apart.
abbrev numbers : Numbers
numbers = record {
  zero = 0;
  one = 100;
  of_size = λ n. n;
  of_value = λ v. v;
  plus = λ a b. a + b;
  minus = λ a b. a - b;
  times = λ a b. a * b;
  divide = λ a b. a;
  sqrt = λ a. a;
}

abbrev casts : Promotions
casts = record {
  of_expected = λ v. 100 * v;
  of_observed = λ v. v;
  to_coefficient = λ v. v;
  observed_zero = 0;
}

abbrev bounds : Extractors
bounds = record { upper_bound = λ p. p + 2; lower_bound = λ p. p; mean = λ p. p + 1 }

-- The second observation is not valid, and the first is above the upper bound.
abbrev observations : Observations
observations = (5, some 9) ∷ (5, none) ∷ (5, some 6) ∷ []

abbrev observed_coefficients : List Value
observed_coefficients = 600 ∷ 100 ∷ []

observed : coefficients numbers 2 casts bounds observations ≡ observed_coefficients
unfolding compute error_of
observed = refl

run-Shows_example :
    Shows numbers 2
      (run numbers 2 casts bounds observations (new numbers 2))
      (coefficients numbers 2 casts bounds observations)
    × (get_error_coefficient numbers 2 (run numbers 2 casts bounds observations (new numbers 2))
        ≡ average numbers (run numbers 2 casts bounds observations (new numbers 2)).error_window)
unfolding compute error_of
run-Shows_example =
    run-Shows numbers 2 casts bounds observations (new numbers 2) (fill 2 100) (omega arith)
      (new-Shows numbers 2) refl

abbrev perturbed : OneSigmaAdaptor
perturbed = run numbers 2 casts bounds observations (new numbers 2)

clear_observations_keeps_example :
    (get_error_coefficient numbers 2
        (run numbers 2 casts bounds ((5, none) ∷ []) (clear_observations numbers 2 perturbed))
      ≡ get_error_coefficient numbers 2 perturbed)
    × (get_error_coefficient numbers 2 (run numbers 2 casts bounds ((5, none) ∷ []) (new numbers 2))
        ≡ 100)
unfolding compute
clear_observations_keeps_example =
    clear_observations_keeps numbers 2 casts bounds ((5, none) ∷ []) perturbed refl

insert-push_example :
    as_buffer numbers 2 (insert numbers 2 (some 250) perturbed)
    ≡ push 0 250 (as_buffer numbers 2 perturbed)
unfolding compute error_of insert evaluate_error new set_at fill
insert-push_example = insert-push numbers 2 250 perturbed refl

Reachable-IsInBounds_example : IsInBounds numbers 2 (
    evaluate_error numbers 2 casts bounds 5 (some 9) (
      clear_observations numbers 2
        (evaluate_error numbers 2 casts bounds 5 (some 6) (new numbers 2))))
Reachable-IsInBounds_example =
    Reachable-IsInBounds numbers 2 (omega arith)
      (evaluates casts bounds 5 (some 9) (clears (evaluates casts bounds 5 (some 6) fresh)))
