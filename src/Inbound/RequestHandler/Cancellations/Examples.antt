-- ===== src/Inbound/RequestHandler/Cancellations/Examples.antt =====
-- The cancellation of a task that waits for input, and one during which others write to the store.
use openclaw_a2a_plugins.Base.{none, some, [], ◌∷◌, ◌≡◌, refl, List}
use openclaw_a2a_plugins.Base.Text.{codes, text_eq}
use openclaw_a2a_plugins.Base.Dict.{get}
use openclaw_a2a_plugins.Inbound.Protocol.{Task, input_required, completed}
use openclaw_a2a_plugins.Inbound.Samples.{fresh_task}
use openclaw_a2a_plugins.Inbound.TaskStore.{Store, load, snapshot_record}
use openclaw_a2a_plugins.Inbound.LiveExecutions.{is_live}
use openclaw_a2a_plugins.Inbound.Coordinator.Stream.Examples.{platform, nobody}
use openclaw_a2a_plugins.Inbound.RequestHandler.Cancellations.{
  World, cancel_task, cancellation_of, Move, ours, theirs, loads, returned, run, step,
}
use openclaw_a2a_plugins.Inbound.RequestHandler.Cancellations.Undisturbed.{
  expected, three_steps, cancel_task_lem,
}
use openclaw_a2a_plugins.Inbound.RequestHandler.Cancellations.Safety.{
  IsAnswer, visited, cancel_task-IsAnswer,
}

abbrev paused_task : Task
paused_task = record fresh_task {
  status = record { state = input_required; timestamp = codes "now"; message = none };
}

abbrev paused_store : Store
paused_store = record {
  records = (codes "t1", snapshot_record paused_task none none) ∷ [];
  pending_bindings = [];
  listeners = [];
  subscriptions = [];
  objects = [];
}

abbrev paused_world : World
paused_world = record { store = paused_store; live = nobody; cancel_calls = [] }

paused-load : load (codes "t1") paused_store ≡ some paused_task
unfolding load get text_eq
paused-load = refl

cancel_task_lem_example :
    (cancel_task platform 0 (codes "t1") three_steps paused_world).1
    ≡ expected paused_task (is_live (codes "t1") nobody) 0 (cancellation_of platform 0 paused_task)
cancel_task_lem_example = cancel_task_lem platform 0 paused_world paused_task paused-load

abbrev done_task : Task
done_task = record fresh_task {
  status = record { state = completed; timestamp = codes "later"; message = none };
}

abbrev done_world : World
done_world = record paused_world {
  store = record paused_store { records = (codes "t1", snapshot_record done_task none none) ∷ [] };
}

-- Another request completes the task before it is loaded.
abbrev moves : List Move
moves = theirs (λ w. done_world) ∷ ours ∷ []

moves_answer :
    cancel_task platform 0 (codes "t1") moves paused_world ≡ (done_world, returned done_task)
unfolding cancel_task run step load get text_eq
moves_answer = refl

cancel_task-IsAnswer_example :
    IsAnswer platform 0
      (codes "t1")
      (visited platform 0 (codes "t1") moves loads paused_world [])
      done_world
      done_task
cancel_task-IsAnswer_example =
    cancel_task-IsAnswer platform 0 (codes "t1") moves paused_world moves_answer
