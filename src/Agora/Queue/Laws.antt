-- ===== src/Agora/Queue/Laws.antt =====
-- The queue hands the jobs out in the order in which they came.
use margot_project.Base.{Bool, true, false, List, [], ◌∷◌, ◌++◌, some, ◌≡◌, refl, ap, subst, sym}
use margot_project.Agora.Queue.{Queue, Dequeued, waits, terminated, job, pop_back, enqueue, dequeue}

module _ {T : Type 0} where
  -- The jobs of a queue, the oldest one first.
  abbrev pub oldest_first : List T → List T
  oldest_first [] = []
  oldest_first (x ∷ xs) = oldest_first xs ++ (x ∷ [])

  -- A queue shows the jobs that wait in it, the oldest one first.
  abbrev pub jobs : Queue T → List T
  jobs q = oldest_first q.job_queue

  pop_back_lem :
      (x : T) (xs : List T)
      → (last : T) × (rest : List T) × (pop_back (x ∷ xs) ≡ some (last, rest))
        × (oldest_first (x ∷ xs) ≡ last ∷ oldest_first rest)
  unfolding pop_back
  pop_back_lem x [] = (x, [], refl, refl)
  pop_back_lem x (y ∷ ys) =
      let (last, rest, popped, order) = pop_back_lem y ys in
      (last, x ∷ rest, rw popped refl, ap (λ l. l ++ (x ∷ [])) order)

  -- What `dequeue` makes of the jobs that wait, by an abstract first-in first-out queue.
  abbrev pub IsNext : Bool → List T → Dequeued T → Type 0
  IsNext true waiting d = d ≡ terminated
  IsNext false [] d = d ≡ waits
  IsNext false (x ∷ xs) d =
      (q : Queue T) × (d ≡ job x q) × (jobs q ≡ xs) × (q.signal_terminate ≡ false)

  dequeue_parts :
      (stop : Bool) (jq : List T)
      → IsNext stop (oldest_first jq) (dequeue (record { job_queue = jq; signal_terminate = stop }))
  unfolding dequeue pop_back
  dequeue_parts true jq = refl
  dequeue_parts false [] = refl
  dequeue_parts false (x ∷ xs) =
      let (last, rest, popped, order) = pop_back_lem x xs in
      subst
        (λ w. IsNext false w (dequeue (record { job_queue = x ∷ xs; signal_terminate = false })))
        (sym order)
        (
          record { job_queue = rest; signal_terminate = false },
          rw (popped, dequeue) refl,
          refl,
          refl,
        )

  -- `dequeue` takes the oldest of the jobs and leaves the others; it waits if there is none, and returns
  -- nothing, whatever jobs wait, once it is told to terminate. A new job is behind all others.
  pub dequeue-IsNext :
      (q : Queue T) (x : T)
      → IsNext q.signal_terminate (jobs q) (dequeue q) × (jobs (enqueue x q) ≡ jobs q ++ (x ∷ []))
  unfolding enqueue
  dequeue-IsNext q x = (dequeue_parts q.signal_terminate q.job_queue, refl)
