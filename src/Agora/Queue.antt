-- ===== src/Agora/Queue.antt =====
-- agora/include/agora/safe_queue.hpp: class Queue, from which the workers take messages. The mutex makes
-- each method atomic; a thread that waits on the condition variable is one whose call is made again.
pub mod Laws
use margot_project.Base.{Bool, true, false, List, [], ◌∷◌, Option, none, some}

pub record Queue (T : Type 0) : Type 0 where
  pub job_queue : List T
  pub signal_terminate : Bool

-- What `dequeue` does: it waits, returns false, or returns true with a job.
pub data Dequeued (T : Type 0) : Type 0 where
  waits terminated : Dequeued T
  job : T → Queue T → Dequeued T

module _ {T : Type 0} where
  unfoldable pub new : Queue T
  new = record { job_queue = []; signal_terminate = false }

  -- `back()` and `pop_back()`
  unfoldable pub pop_back : List T → Option (T × List T)
  pop_back [] = none
  pop_back (x ∷ xs) = elim (pop_back xs) [
    | none ↦ some (x, [])
    | some (last, rest) ↦ some (last, x ∷ rest)
  ]

  -- `enqueue(input_job)`
  unfoldable pub enqueue : T → Queue T → Queue T
  enqueue input_job q = record q { job_queue = input_job ∷ q.job_queue }

  -- `dequeue(output_job)`, one round of its loop
  unfoldable pub dequeue : Queue T → Dequeued T
  dequeue q = elim q.signal_terminate [
    | true ↦ terminated
    | false ↦ elim (pop_back q.job_queue) [
      | none ↦ waits
      | some (output_job, rest) ↦ job output_job (record q { job_queue = rest })
    ]
  ]

  -- `send_terminate_signal()` and `clear_terminate_signal()`
  unfoldable pub send_terminate_signal : Queue T → Queue T
  send_terminate_signal q = record q { signal_terminate = true }

  unfoldable pub clear_terminate_signal : Queue T → Queue T
  clear_terminate_signal q = record q { signal_terminate = false }
