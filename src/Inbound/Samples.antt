-- ===== src/Inbound/Samples.antt =====
-- Test data for the inbound plugin: a task, a message and an artifact chunk.
use openclaw_a2a_plugins.Base.{Bool, none, some, [], ◌∷◌}
use openclaw_a2a_plugins.Base.Text.{Text, codes}
use openclaw_a2a_plugins.Inbound.Protocol.{
  Task, Message, Part, JournalEvent, artifact_update, text, user, working,
}

abbrev pub words : Text → Part
words t = record { content = text t; metadata = none }

abbrev pub hello : Message
hello = record {
  message_id = codes "m1";
  role = user;
  parts = words (codes "hello") ∷ [];
  context_id = none;
  task_id = none;
  metadata = none;
}

abbrev pub fresh_task : Task
fresh_task = record {
  id = codes "t1";
  context_id = codes "c1";
  history = some (hello ∷ []);
  artifacts = none;
  metadata = none;
  status = record { state = working; timestamp = codes "now"; message = none };
}

abbrev pub chunk : Bool → Text → JournalEvent
chunk append t = artifact_update (record {
  task_id = codes "t1";
  context_id = codes "c1";
  append = some append;
  last_chunk = none;
  artifact = record {
    artifact_id = codes "a1";
    name = none;
    description = none;
    metadata = none;
    parts = words t ∷ [];
  };
})
