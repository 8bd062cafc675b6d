-- ===== src/StatisticalProvider/Currency.antt =====
-- What is kept of a statistic is that of the window.
use margot_project.Base.{
  ℕ, ltb, ◌<◌, ◌⊎◌, inl, inr, false, List, [], ◌∷◌, Value, ◌≡◌, refl, arith, List-cases, Bool-cases,
  sym, ap, ◌∙◌,
}
use margot_project.Enums.{DataFunctions, average, standard_deviation, maximum, minimum}
use margot_project.CircularBuffer
use margot_project.Statistics.{Numbers}
use margot_project.Statistics
use margot_project.StatisticalProvider.{
  StatisticalProvider, compute_average, compute_standard_deviation, compute_max, compute_min,
  compute,
}

module _ (ops : Numbers) (value_zero : Value) where
  -- A statistic of a window; that of an empty one is zero.
  abbrev pub statistic_of : DataFunctions → List Value → Value
  statistic_of average [] = ops.zero
  statistic_of average (x ∷ c) = Statistics.average ops (x ∷ c)
  statistic_of standard_deviation [] = ops.zero
  statistic_of standard_deviation (x ∷ c) =
      Statistics.stddev ops (x ∷ c) (Statistics.average ops (x ∷ c))
  statistic_of maximum [] = value_zero
  statistic_of maximum (x ∷ c) = Statistics.max x c
  statistic_of minimum [] = value_zero
  statistic_of minimum (x ∷ c) = Statistics.min x c

  -- A value that is older than the window, or that of the window.
  abbrev pub IsKept : ℕ → ℕ → Value → Value → Type 0
  IsKept computed changed previous current =
      (computed < changed) ⊎ ((computed ≡ changed) × (previous ≡ current))

  pub record IsCurrent (p : StatisticalProvider) : Type 0 where
    pub average :
        IsKept p.average_computed_time p.base.last_change p.previous_average
          (statistic_of average p.base.buffer)
    pub standard_deviation :
        IsKept p.stddev_computed_time p.base.last_change p.previous_stddev
          (statistic_of standard_deviation p.base.buffer)
    pub maximum :
        IsKept p.max_computed_time p.base.last_change p.previous_max
          (statistic_of maximum p.base.buffer)
    pub minimum :
        IsKept p.min_computed_time p.base.last_change p.previous_min
          (statistic_of minimum p.base.buffer)

  pub kept-value :
      (computed changed : ℕ) (previous current : Value)
      → IsKept computed changed previous current
      → ltb computed changed ≡ false
      → previous ≡ current
  kept-value computed changed previous current h e = ground (arith, h, e)

  -- A query returns the statistic of the window, and leaves it and what is kept as current as they were.
  abbrev pub Answers :
      (StatisticalProvider → StatisticalProvider × Value)
      → DataFunctions
      → StatisticalProvider
      → Type 0
  Answers query df p =
      IsCurrent (query p).0
      × ((query p).1 ≡ statistic_of df p.base.buffer)
      × ((query p).0.base ≡ p.base)

  pub compute_average-Answers :
      (p : StatisticalProvider) → IsCurrent p → Answers (compute_average ops value_zero) average p
  unfolding compute_average
  compute_average-Answers p h = elim (List-cases p.base.buffer) [
    | inl empty ↦
        let none_seen : compute_average ops value_zero p ≡ (p, ops.zero) =
          simp (empty, compute_average) in
        rw none_seen (h, sym (ap (statistic_of average) empty), refl)
    | inr ((x, c), nonempty) ↦
        let current : Statistics.average ops (x ∷ c) ≡ statistic_of average p.base.buffer =
          sym (ap (statistic_of average) nonempty) in
        elim (Bool-cases (ltb p.average_computed_time p.base.last_change)) [
          | inl stale ↦
              let renewed : compute_average ops value_zero p ≡ (
                record p {
                  previous_average = Statistics.average ops (x ∷ c);
                  average_computed_time = p.base.last_change;
                },
                Statistics.average ops (x ∷ c),
              ) =
                simp (nonempty, stale, compute_average) in
              rw renewed (
                record {
                  average = inr (refl, current);
                  standard_deviation = h.standard_deviation;
                  maximum = h.maximum;
                  minimum = h.minimum;
                },
                current,
                refl,
              )
          | inr kept ↦
              let same : compute_average ops value_zero p ≡ (p, p.previous_average) =
                simp (nonempty, kept, compute_average) in
              rw same (
                h,
                kept-value p.average_computed_time p.base.last_change p.previous_average _ h.average
                    kept,
                refl,
              )
        ]
  ]

  compute_max-Answers :
      (p : StatisticalProvider) → IsCurrent p → Answers (compute_max ops value_zero) maximum p
  unfolding compute_max
  compute_max-Answers p h = elim (List-cases p.base.buffer) [
    | inl empty ↦
        let none_seen : compute_max ops value_zero p ≡ (p, value_zero) =
          simp (empty, compute_max) in
        rw none_seen (h, sym (ap (statistic_of maximum) empty), refl)
    | inr ((x, c), nonempty) ↦
        let current : Statistics.max x c ≡ statistic_of maximum p.base.buffer =
          sym (ap (statistic_of maximum) nonempty) in
        elim (Bool-cases (ltb p.max_computed_time p.base.last_change)) [
          | inl stale ↦
              let renewed : compute_max ops value_zero p ≡ (
                record p {
                  previous_max = Statistics.max x c;
                  max_computed_time = p.base.last_change;
                },
                Statistics.max x c,
              ) =
                simp (nonempty, stale, compute_max) in
              rw renewed (
                record {
                  average = h.average;
                  standard_deviation = h.standard_deviation;
                  maximum = inr (refl, current);
                  minimum = h.minimum;
                },
                current,
                refl,
              )
          | inr kept ↦
              let same : compute_max ops value_zero p ≡ (p, p.previous_max) =
                simp (nonempty, kept, compute_max) in
              rw same (
                h,
                kept-value p.max_computed_time p.base.last_change p.previous_max _ h.maximum kept,
                refl,
              )
        ]
  ]

  compute_min-Answers :
      (p : StatisticalProvider) → IsCurrent p → Answers (compute_min ops value_zero) minimum p
  unfolding compute_min
  compute_min-Answers p h = elim (List-cases p.base.buffer) [
    | inl empty ↦
        let none_seen : compute_min ops value_zero p ≡ (p, value_zero) =
          simp (empty, compute_min) in
        rw none_seen (h, sym (ap (statistic_of minimum) empty), refl)
    | inr ((x, c), nonempty) ↦
        let current : Statistics.min x c ≡ statistic_of minimum p.base.buffer =
          sym (ap (statistic_of minimum) nonempty) in
        elim (Bool-cases (ltb p.min_computed_time p.base.last_change)) [
          | inl stale ↦
              let renewed : compute_min ops value_zero p ≡ (
                record p {
                  previous_min = Statistics.min x c;
                  min_computed_time = p.base.last_change;
                },
                Statistics.min x c,
              ) =
                simp (nonempty, stale, compute_min) in
              rw renewed (
                record {
                  average = h.average;
                  standard_deviation = h.standard_deviation;
                  maximum = h.maximum;
                  minimum = inr (refl, current);
                },
                current,
                refl,
              )
          | inr kept ↦
              let same : compute_min ops value_zero p ≡ (p, p.previous_min) =
                simp (nonempty, kept, compute_min) in
              rw same (
                h,
                kept-value p.min_computed_time p.base.last_change p.previous_min _ h.minimum kept,
                refl,
              )
        ]
  ]

  compute_standard_deviation-Answers :
      (p : StatisticalProvider)
      → IsCurrent p
      → Answers (compute_standard_deviation ops value_zero) standard_deviation p
  unfolding compute_standard_deviation
  compute_standard_deviation-Answers p h = elim (List-cases p.base.buffer) [
    | inl empty ↦
        let none_seen : compute_standard_deviation ops value_zero p ≡ (p, ops.zero) =
          simp (empty, compute_standard_deviation) in
        rw none_seen (h, sym (ap (statistic_of standard_deviation) empty), refl)
    | inr ((x, c), nonempty) ↦
        let mean = compute_average ops value_zero p in
        let averaged = compute_average-Answers p h in
        elim (Bool-cases (ltb p.stddev_computed_time p.base.last_change)) [
          | inl stale ↦
              let renewed : compute_standard_deviation ops value_zero p ≡ (
                record mean.0 {
                  previous_stddev = Statistics.stddev ops (x ∷ c) mean.1;
                  stddev_computed_time = p.base.last_change;
                },
                Statistics.stddev ops (x ∷ c) mean.1,
              ) =
                simp (nonempty, stale, compute_standard_deviation) in
              let current : Statistics.stddev ops (x ∷ c) mean.1
                  ≡ statistic_of standard_deviation p.base.buffer =
                ap (Statistics.stddev ops (x ∷ c)) (averaged.1 ∙ ap (statistic_of average) nonempty)
                ∙ sym (ap (statistic_of standard_deviation) nonempty) in
              rw renewed (
                record {
                  average = averaged.0.average;
                  standard_deviation = inr (
                    sym (
                        ap (λ (b : CircularBuffer.CircularBuffer Value). b.last_change) averaged.2),
                    current
                        ∙ sym (
                            ap
                              (λ (b : CircularBuffer.CircularBuffer Value).
                                statistic_of standard_deviation b.buffer)
                              averaged.2),
                  );
                  maximum = averaged.0.maximum;
                  minimum = averaged.0.minimum;
                },
                current,
                averaged.2,
              )
          | inr kept ↦
              let same : compute_standard_deviation ops value_zero p ≡ (p, p.previous_stddev) =
                simp (nonempty, kept, compute_standard_deviation) in
              rw same (
                h,
                kept-value p.stddev_computed_time p.base.last_change p.previous_stddev _
                    h.standard_deviation kept,
                refl,
              )
        ]
  ]

  pub compute-Answers :
      (df : DataFunctions) (p : StatisticalProvider)
      → IsCurrent p
      → Answers (compute ops value_zero df) df p
  unfolding compute
  compute-Answers average p h = compute_average-Answers p h
  compute-Answers standard_deviation p h = compute_standard_deviation-Answers p h
  compute-Answers maximum p h = compute_max-Answers p h
  compute-Answers minimum p h = compute_min-Answers p h
