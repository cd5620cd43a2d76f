-- ===== src/Inbound/RequestHandler/Contexts/Examples.antt =====
-- A message that goes on with a bound task.
use openclaw_a2a_plugins.Base.{none, some, [], ◌∷◌, ◌≡◌, ◌⊎◌}
use openclaw_a2a_plugins.Base.Text.{codes}
use openclaw_a2a_plugins.Base.Results.{err}
use openclaw_a2a_plugins.Inbound.Samples.{hello, fresh_task}
use openclaw_a2a_plugins.Inbound.TaskStore.{Store, snapshot_record}
use openclaw_a2a_plugins.Inbound.TaskStore.Examples.{route}
use openclaw_a2a_plugins.Inbound.RequestHandler.{HandlerError}
use openclaw_a2a_plugins.Inbound.RequestHandler.Contexts.{resume_task}
use openclaw_a2a_plugins.Inbound.RequestHandler.Contexts.Resumptions.{
  Resumed, IsRefusal, alone, resume_task_lem,
}

abbrev bound_store : Store
bound_store = record {
  records = (codes "t1", snapshot_record fresh_task (some route) none) ∷ [];
  pending_bindings = [];
  listeners = [];
  subscriptions = [];
  objects = [];
}

resume_task_lem_example :
    ((e : HandlerError) × (resume_task alone (codes "t1") hello bound_store ≡ (bound_store, err e))
      × IsRefusal (codes "t1") hello bound_store e)
    ⊎ Resumed (codes "t1") hello bound_store
resume_task_lem_example = resume_task_lem (codes "t1") hello bound_store
