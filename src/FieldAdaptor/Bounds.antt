-- ===== src/FieldAdaptor/Bounds.antt =====
-- The index of an adaptor stays in its array.
use margot_project.Base.{ℕ, ◌<◌, Option, none, some, OpPtr, Value, ◌≡◌, arith, length, ◌∙◌}
use margot_project.Statistics.{Numbers}
use margot_project.FieldAdaptor.{
  OneSigmaAdaptor, Extractors, Promotions, compute, new, insert, evaluate_error, clear_observations,
}
use margot_project.FieldAdaptor.Window.{length-fill}
use margot_project.CircularBuffer.Slots.{length-set_at}

module _ (ops : Numbers) (inertia : ℕ) where
  -- An adaptor after any calls of its methods, at whatever Operating Points and observations.
  pub data Reachable : OneSigmaAdaptor → Type 0 where
    fresh : Reachable (new ops inertia)
    evaluates :
        (casts : Promotions) (op_utils : Extractors) (op : OpPtr) (observed : Option Value)
        {a : OneSigmaAdaptor}
        → Reachable a
        → Reachable (evaluate_error ops inertia casts op_utils op observed a)
    clears : {a : OneSigmaAdaptor} → Reachable a → Reachable (clear_observations ops inertia a)

  -- The array is as long as the template says, and the next index is in it.
  abbrev pub IsInBounds : OneSigmaAdaptor → Type 0
  IsInBounds a = (length a.error_window ≡ inertia) × (a.next_element < inertia)

  insert-IsInBounds :
      (c : Option Value) (a : OneSigmaAdaptor) → IsInBounds a → IsInBounds (insert ops inertia c a)
  unfolding insert
  insert-IsInBounds none a h = h
  insert-IsInBounds (some v) a h =
      (length-set_at a.next_element v a.error_window ∙ h.0, ground (arith, h.1))

  -- Where the length that the template gives is not 0, in every adaptor that is reached by calls of its
  -- methods the array has that length, and the next index to be written is less.
  pub Reachable-IsInBounds : {a : OneSigmaAdaptor} → 0 < inertia → Reachable a → IsInBounds a
  unfolding new evaluate_error clear_observations
  Reachable-IsInBounds positive fresh = (length-fill ops inertia inertia ops.one, positive)
  Reachable-IsInBounds positive (evaluates casts op_utils op observed {a} r) =
      insert-IsInBounds (compute ops casts op_utils op observed) a (Reachable-IsInBounds positive r)
  Reachable-IsInBounds positive (clears r) =
      (length-fill ops inertia inertia ops.one, (Reachable-IsInBounds positive r).1)
