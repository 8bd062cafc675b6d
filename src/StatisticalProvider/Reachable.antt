-- ===== src/StatisticalProvider/Reachable.antt =====
-- Where the clock goes on between two changes of the window, its statistics are current.
use margot_project.Base.{ℕ, ◌<◌, inl, Value, ◌≡◌, refl, arith}
use margot_project.Enums.{DataFunctions}
use margot_project.CircularBuffer
use margot_project.Statistics.{Numbers}
use margot_project.StatisticalProvider.{StatisticalProvider, make, push, clear, compute, get}
use margot_project.StatisticalProvider.Currency.{statistic_of, IsKept, IsCurrent, compute-Answers}

module _ (ops : Numbers) (value_zero : Value) where
  -- A provider after any calls, of which those that change the window are made at later and later times.
  pub data Reachable : StatisticalProvider → Type 0 where
    fresh :
        (now size : ℕ) (uninitialized : Value)
        → 0 < now
        → Reachable (make ops value_zero now size uninitialized)
    pushes :
        (now : ℕ) (v : Value) {p : StatisticalProvider}
        → p.base.last_change < now
        → Reachable p
        → Reachable (push ops value_zero now v p)
    clears :
        (now : ℕ) {p : StatisticalProvider}
        → p.base.last_change < now
        → Reachable p
        → Reachable (clear ops value_zero now p)
    asks :
        (df : DataFunctions) {p : StatisticalProvider}
        → Reachable p
        → Reachable (compute ops value_zero df p).0

  outdated :
      (computed changed now : ℕ) (previous current next : Value)
      → changed < now
      → IsKept ops value_zero computed changed previous current
      → IsKept ops value_zero computed now previous next
  outdated computed changed now previous current next later h = ground (arith, later, h)

  changed-IsCurrent :
      (p : StatisticalProvider) (b : CircularBuffer.CircularBuffer Value)
      → p.base.last_change < b.last_change
      → IsCurrent ops value_zero p
      → IsCurrent ops value_zero (record p { base = b })
  changed-IsCurrent p b later h = record {
    average =
        outdated p.average_computed_time p.base.last_change b.last_change _ _ _ later h.average;
    standard_deviation =
        outdated p.stddev_computed_time p.base.last_change b.last_change _ _ _ later
          h.standard_deviation;
    maximum = outdated p.max_computed_time p.base.last_change b.last_change _ _ _ later h.maximum;
    minimum = outdated p.min_computed_time p.base.last_change b.last_change _ _ _ later h.minimum;
  }

  pub Reachable-IsCurrent : {p : StatisticalProvider} → Reachable p → IsCurrent ops value_zero p
  unfolding make push clear CircularBuffer.make CircularBuffer.push CircularBuffer.clear
  Reachable-IsCurrent (fresh now size uninitialized positive) = record {
    average = inl positive;
    standard_deviation = inl positive;
    maximum = inl positive;
    minimum = inl positive;
  }
  Reachable-IsCurrent (pushes now v {p} later r) =
      changed-IsCurrent p (CircularBuffer.push now v p.base) (ground (arith, later))
        (Reachable-IsCurrent r)
  Reachable-IsCurrent (clears now {p} later r) =
      changed-IsCurrent p (CircularBuffer.clear now p.base) later (Reachable-IsCurrent r)
  Reachable-IsCurrent (asks df {p} r) =
      (compute-Answers ops value_zero df p (Reachable-IsCurrent r)).0

  -- If every change of the window is at a later time than the one before, then each statistic that a
  -- monitor is asked for is that of the observations that the window now has, and it is told to be valid
  -- if the window is full; the window stays as it is.
  pub get-Reachable :
      (df : DataFunctions) (p : StatisticalProvider)
      → Reachable p
      → ((get ops value_zero df p).1 ≡ statistic_of ops value_zero df p.base.buffer)
        × ((get ops value_zero df p).2 ≡ CircularBuffer.valid p.base)
        × ((get ops value_zero df p).0.base ≡ p.base)
  unfolding get
  get-Reachable df p r =
      let answers = compute-Answers ops value_zero df p (Reachable-IsCurrent r) in
      (answers.1, refl, answers.2)
