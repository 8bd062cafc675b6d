-- ===== src/Agora/Handler/System.antt =====
-- The handler of one application with the worker threads that are inside its methods, interleaved in any
-- order.
use margot_project.Base.{ℕ, true, List, [], ◌∷◌, ◌++◌, Option, none, some, ◌≡◌}
use margot_project.Agora.Handler.{
  ClientId, Description, Storage, Effect, insert_observation, RemoteApplicationHandler, new,
}
use margot_project.Agora.Handler.Recovery.{welcome_client, bye_client}
use margot_project.Agora.Handler.Observation.{Phase, observed, takes_observation, resume}

-- `pending` are the threads that are inside `process_observation` and wait.
pub record System : Type 0 where
  pub handler : RemoteApplicationHandler
  pub pending : List Phase

-- Where a thread waits next, among the others.
abbrev pub wait_again : Option Phase → List Phase → List Phase
wait_again none others = others
wait_again (some p) others = p ∷ others

-- One step, and what it does outside. What the storage holds may differ from step to step.
pub data Step (s : System) : List Effect → System → Type 0 where
  welcomes :
      (found predicted planned : Storage) (cid : ClientId) (info : Option Description)
      → Step s
          (welcome_client found predicted planned cid info s.handler).1
          (record s { handler = (welcome_client found predicted planned cid info s.handler).0 })
  leaves : (cid : ClientId) → Step s [] (record s { handler = bye_client cid s.handler })
  observes :
      (cid : ClientId) (values : ℕ)
      → takes_observation s.handler ≡ true
      → Step s
          (insert_observation cid values ∷ [])
          (record s { pending = observed cid ∷ s.pending })
  resumes :
      (storage : Storage) (before : List Phase) (p : Phase) (after : List Phase)
      → s.pending ≡ before ++ (p ∷ after)
      → Step s (resume storage p s.handler).1 (record {
        handler = (resume storage p s.handler).0;
        pending = before ++ wait_again (resume storage p s.handler).2 after;
      })

pub data Reachable : System → Type 0 where
  start : Reachable (record { handler = new; pending = [] })
  later : {s t : System} {es : List Effect} → Reachable s → Step s es t → Reachable t
