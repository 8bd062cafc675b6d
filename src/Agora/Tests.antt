-- ===== src/Agora/Tests.antt =====
-- Runs of the server's parts, and the theorems at them.
use margot_project.Base.{ℕ, true, false, [], ◌∷◌, ◌++◌, some, ◌≡◌, refl, arith, count}
use margot_project.Agora.Doe.{DoeModel, explored_once, put_back, get_next, explore}
use margot_project.Agora.Doe.Laws.{turns_of, explore_lem}
use margot_project.Agora.Queue.{Queue, job, pop_back, enqueue, dequeue}
use margot_project.Agora.Queue.Laws.{jobs, IsNext, dequeue-IsNext}
use margot_project.Agora.Handler.{
  InternalStatus, exploring, building_model, Description, Storage, Effect, send_explore,
  RemoteApplicationHandler,
}
use margot_project.Agora.Handler
use margot_project.Agora.Handler.Recovery.{welcome_client}
use margot_project.Agora.Handler.Recovery
use margot_project.Agora.Handler.Observation.{
  Phase, modeling, predicting, after_observation, process_observation,
}
use margot_project.Agora.Handler.System.{System, welcomes, Reachable, start, later}
use margot_project.Agora.Handler.Modes.{IsSettled, IsTelling}
use margot_project.Agora.Handler.Invariant.{Reachable-IsSettled, Step-IsTelling}
use margot_project.Agora.Handler.Alone.{IsEnd, outcome, process_observation-IsEnd}
use margot_project.Agora.Handler.Races.{explore_while_building}

-- Two configurations, one of which is to be explored twice.
abbrev experiments : DoeModel
experiments =
    record { configuration_id = 1; configuration = 10; number_of_explorations = 2 }
    ∷ record { configuration_id = 2; configuration = 20; number_of_explorations = 0 }
    ∷ []

explored_order : (explore 5 experiments).0 ≡ 1 ∷ 2 ∷ 1 ∷ []
unfolding explore get_next explored_once put_back
explored_order = refl

explore_lem_example :
    (count 1 (explore 3 experiments).0 ≡ turns_of 1 experiments) × ((explore 3 experiments).1 ≡ [])
explore_lem_example = explore_lem 3 experiments 1 (omega arith)

abbrev two_jobs : Queue ℕ
two_jobs = record { job_queue = 8 ∷ 7 ∷ []; signal_terminate = false }

dequeue-IsNext_example :
    IsNext two_jobs.signal_terminate (jobs two_jobs) (dequeue two_jobs)
    × (jobs (enqueue 9 two_jobs) ≡ jobs two_jobs ++ (9 ∷ []))
dequeue-IsNext_example = dequeue-IsNext two_jobs 9

oldest_job : dequeue two_jobs ≡ job 7 (record { job_queue = 8 ∷ []; signal_terminate = false })
unfolding dequeue pop_back
oldest_job = refl

-- An application with one metric; the storage that its first client finds, and what the plugins make.
abbrev application : Description
application = record {
  features_enabled = true;
  metrics = 3 ∷ [];
  number_configurations_per_iteration = 1;
}

abbrev nothing : Storage
nothing = record {
  load_doe = [];
  load_cluster = [];
  load_prediction = [];
  is_model_valid = λ m. false;
}

abbrev planned : Storage
planned = record nothing { load_doe = experiments }

abbrev trained : Storage
trained = record planned { load_cluster = 1 ∷ []; is_model_valid = λ m. true }

abbrev predicted : Storage
predicted = record trained { load_prediction = 5 ∷ 6 ∷ [] }

abbrev nobody : System
nobody = record { handler = Handler.new; pending = [] }

abbrev one_client : System
one_client = record {
  handler = (welcome_client nothing nothing planned 1 (some application) nobody.handler).0;
  pending = [];
}

one_client-Reachable : Reachable one_client
one_client-Reachable = later start (welcomes nothing nothing planned 1 (some application))

Reachable-IsSettled_example : IsSettled one_client.handler
Reachable-IsSettled_example = Reachable-IsSettled one_client-Reachable

Step-IsTelling_example :
    IsTelling (welcome_client predicted nothing nothing 1 (some application) nobody.handler).1
Step-IsTelling_example =
    Step-IsTelling start (welcomes predicted nothing nothing 1 (some application))

-- Which configurations are left once the first client has its own.
left : DoeModel
unfolding welcome_client Handler.check_state Handler.add_client Handler.new Recovery.first_welcome
    Recovery.answer Recovery.is_busy Recovery.start_recovering Handler.is_prediction_valid
    Recovery.load_all Handler.is_cluster_valid Recovery.recover_doe Handler.is_doe_valid
    Recovery.recover_planning Handler.set_state Handler.send_configuration get_next explored_once
    put_back Handler.all_valid Handler.are_models_valid Handler.insert Handler.start_doe
left = one_client.handler.doe

one_left :
    left
    ≡ record { configuration_id = 2; configuration = 20; number_of_explorations = 0 }
      ∷ record { configuration_id = 1; configuration = 10; number_of_explorations = 1 }
      ∷ []
unfolding left
one_left = refl

abbrev at : Phase → Storage
at modeling = trained
at predicting = predicted
at _ = planned

process_observation-IsEnd_example :
    IsEnd (outcome at one_client.handler) (process_observation at 1 one_client.handler)
unfolding left
process_observation-IsEnd_example =
    process_observation-IsEnd at 1 one_client.handler (λ t. ground arith)

explore_while_building_example :
    let (h', es, next) = after_observation 1 one_client.handler in
    let (h'', es', next') = after_observation 2 h' in
    (next ≡ some modeling)
    × (es' ≡ send_explore 2 20 ∷ [])
    × (h''.handler_status exploring ≡ false)
    × (h''.handler_status building_model ≡ true)
unfolding left
explore_while_building_example =
    explore_while_building 1 2 one_client.handler
      (record { configuration_id = 2; configuration = 20; number_of_explorations = 0 })
      (record { configuration_id = 1; configuration = 10; number_of_explorations = 1 } ∷ []) refl
      refl refl
