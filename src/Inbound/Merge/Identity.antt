-- ===== src/Inbound/Merge/Identity.antt =====
-- No event changes the id of a task.
use openclaw_a2a_plugins.Base.{◌≡◌, refl, Option, none, some, arith}
use openclaw_a2a_plugins.Inbound.Protocol.{
  Message, Task, JournalEvent, status_update, artifact_update,
}
use openclaw_a2a_plugins.Inbound.Merge.{
  ensure_history_contains_message, apply_event, merge_status, merge_artifact, with_message,
}

pub ensure-id : (t : Task) (m : Message) → (ensure_history_contains_message t m).id ≡ t.id
unfolding ensure_history_contains_message
ensure-id t m = ground arith

with_message-id : (t : Task) (o : Option Message) → (with_message t o).id ≡ t.id
with_message-id t none = refl
with_message-id t (some m) = ensure-id t m

pub apply_event-id : (t : Task) (e : JournalEvent) → (apply_event t e).id ≡ t.id
unfolding apply_event merge_status merge_artifact
apply_event-id t (status_update e) =
    with_message-id (record t { status = e.status }) e.status.message
apply_event-id t (artifact_update e) = refl
