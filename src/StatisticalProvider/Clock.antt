-- ===== src/StatisticalProvider/Clock.antt =====
-- What the statistics are where two changes fall on one time of the clock.
use margot_project.Base.{
  ℕ, zero, suc, ◌++◌, length, ltb, inl, inr, is_empty, false, List, [], ◌∷◌, Value, ◌≡◌, refl,
  arith, List-cases, Bool-cases, sym, ap, ◌∙◌,
}
use margot_project.Enums.{average}
use margot_project.CircularBuffer
use margot_project.Statistics.{Numbers}
use margot_project.Statistics
use margot_project.StatisticalProvider.{StatisticalProvider, push, compute_average, compute, get}
use margot_project.StatisticalProvider.Currency.{
  statistic_of, IsCurrent, kept-value, compute_average-Answers,
}
use margot_project.StatisticalProvider.Reachable.{Reachable, Reachable-IsCurrent}

module _ (ops : Numbers) (value_zero : Value) where
  is_empty-set_at :
      (i : ℕ) (v : Value) (l : List Value) → is_empty (CircularBuffer.set_at i v l) ≡ is_empty l
  unfolding CircularBuffer.set_at
  is_empty-set_at i v [] = refl
  is_empty-set_at zero v (x ∷ l) = refl
  is_empty-set_at (suc i) v (x ∷ l) = refl

  is_empty-append : (l : List Value) (v : Value) → is_empty (l ++ (v ∷ [])) ≡ false
  is_empty-append [] v = refl
  is_empty-append (x ∷ l) v = refl

  push_some :
      (now : ℕ) (v : Value) (b : CircularBuffer.CircularBuffer Value)
      → is_empty b.buffer ≡ false
      → (is_empty (CircularBuffer.push now v b).buffer ≡ false)
        × ((CircularBuffer.push now v b).last_change ≡ now)
  unfolding CircularBuffer.push
  push_some now v b some_seen = elim (Bool-cases (ltb (length b.buffer) b.maximum_number_element)) [
    | inl room ↦ rw (room, CircularBuffer.push) (is_empty-append b.buffer v, refl)
    | inr full ↦
        rw (full, CircularBuffer.push) (is_empty-set_at b.next_element v b.buffer ∙ some_seen, refl)
  ]

  -- The average of a window that has just been asked for is kept with the time of the window.
  compute_average_now :
      (p : StatisticalProvider)
      → IsCurrent ops value_zero p
      → is_empty p.base.buffer ≡ false
      → ((compute_average ops value_zero p).0.average_computed_time ≡ p.base.last_change)
        × ((compute_average ops value_zero p).0.previous_average
            ≡ statistic_of ops value_zero average p.base.buffer)
  unfolding compute_average
  compute_average_now p h some_seen = elim (List-cases p.base.buffer) [
    | inl empty ↦ absurd (ground (arith, empty, some_seen))
    | inr ((x, c), nonempty) ↦ elim (Bool-cases (ltb p.average_computed_time p.base.last_change)) [
      | inl stale ↦
          let renewed : compute_average ops value_zero p ≡ (
            record p {
              previous_average = Statistics.average ops (x ∷ c);
              average_computed_time = p.base.last_change;
            },
            Statistics.average ops (x ∷ c),
          ) =
            simp (nonempty, stale, compute_average) in
          rw renewed (refl, sym (ap (statistic_of ops value_zero average) nonempty))
      | inr kept ↦
          let same : compute_average ops value_zero p ≡ (p, p.previous_average) =
            simp (nonempty, kept, compute_average) in
          rw same (
            ground (arith, kept, h.average),
            kept-value ops value_zero p.average_computed_time p.base.last_change p.previous_average
                _ h.average kept,
          )
    ]
  ]

  compute_average_kept :
      (p : StatisticalProvider)
      → is_empty p.base.buffer ≡ false
      → p.average_computed_time ≡ p.base.last_change
      → (compute_average ops value_zero p).1 ≡ p.previous_average
  unfolding compute_average
  compute_average_kept p some_seen now = elim (List-cases p.base.buffer) [
    | inl empty ↦ absurd (ground (arith, empty, some_seen))
    | inr ((x, c), nonempty) ↦
        let kept : ltb p.average_computed_time p.base.last_change ≡ false = ground (arith, now) in
        let same : compute_average ops value_zero p ≡ (p, p.previous_average) =
          simp (nonempty, kept, compute_average) in
        ap (λ (r : StatisticalProvider × Value). r.1) same
  ]

  -- If an observation arrives at the time of the last change of the window, after the average of a window
  -- that is not empty has been asked for, then the average that is asked for next is still that of the
  -- window without the observation.
  pub push_at_once :
      (p : StatisticalProvider) (v : Value)
      → Reachable ops value_zero p
      → is_empty p.base.buffer ≡ false
      → (get ops value_zero average
          (push ops value_zero p.base.last_change v (get ops value_zero average p).0)).1
        ≡ statistic_of ops value_zero average p.base.buffer
  unfolding get compute push
  push_at_once p v r some_seen =
      let asked = (compute_average ops value_zero p).0 in
      let h = Reachable-IsCurrent ops value_zero r in
      let base : asked.base ≡ p.base = (compute_average-Answers ops value_zero p h).2 in
      let now = compute_average_now p h some_seen in
      let pushed =
        push_some p.base.last_change v asked.base
          (ap (λ (b : CircularBuffer.CircularBuffer Value). is_empty b.buffer) base ∙ some_seen) in
      compute_average_kept (push ops value_zero p.base.last_change v asked) pushed.0
        (now.0 ∙ sym pushed.1)
      ∙ now.1
