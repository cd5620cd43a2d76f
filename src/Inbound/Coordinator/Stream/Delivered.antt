-- ===== src/Inbound/Coordinator/Stream/Delivered.antt =====
-- The replies that a coordinator is handed keep to the automaton.
use openclaw_a2a_plugins.Base.{refl, [], ◌∷◌, ◌++◌}
use openclaw_a2a_plugins.Base.Text.{Text}
use openclaw_a2a_plugins.Inbound.Protocol.{Json}
use openclaw_a2a_plugins.Inbound.Replies.{Ambient, NormalizedReplyPayload, normalize_reply_payload}
use openclaw_a2a_plugins.Inbound.Coordinator.{tool_stage, Coordinator, change_stage}
use openclaw_a2a_plugins.Inbound.Coordinator.Reading.{ReplyDispatchKind, tool, block, final, so_far}
use openclaw_a2a_plugins.Inbound.Coordinator.Publishing.{
  publish_assistant_stage, publish_tool_artifact,
}
use openclaw_a2a_plugins.Inbound.Coordinator.Stages.{
  flush_queued_assistant_artifact, is_final, ensure_assistant_stage_for_reply,
}
use openclaw_a2a_plugins.Inbound.Coordinator.Deliveries.{
  with_reply, handle_tool_reply, handle_text_reply, handle_kind, handle_reply_payload,
}
use openclaw_a2a_plugins.Inbound.Coordinator.Stream.{
  Inv, At, Holds, and_then-Holds, and_done-Holds, Holds-weaken, if-Holds,
}
use openclaw_a2a_plugins.Inbound.Coordinator.Stream.Published.{publish_tool_artifact-At}
use openclaw_a2a_plugins.Inbound.Coordinator.Stream.Started.{publish_assistant_stage-Inv}
use openclaw_a2a_plugins.Inbound.Coordinator.Stream.Starts.{
  ensure_assistant_stage_for_reply-Inv, flush_queued_assistant_artifact-Inv, promote_to_task-Inv,
}

module _ (w : Ambient) (id : Text) where
  handle_tool_reply-Inv :
      (p : NormalizedReplyPayload) (c : Coordinator)
      → Inv id c
      → Holds id (Inv id) (handle_tool_reply w p c)
  handle_tool_reply-Inv p c v =
      if-Holds id (Inv id) c.promoted _ _
        (λ task.
          Holds-weaken id (At id c.final_published) (Inv id) (publish_tool_artifact w p c)
            (λ _ at. at.0) (publish_tool_artifact-At w id c.final_published p c (v, task, refl)))
        (λ bare.
          promote_to_task-Inv w id
            (record c { staged_outputs = c.staged_outputs ++ tool_stage p ∷ [] }) v)

  handle_text_reply-Inv :
      (kind : ReplyDispatchKind) (p : NormalizedReplyPayload) (c : Coordinator)
      → Inv id c
      → Holds id (Inv id) (handle_text_reply w kind p c)
  handle_text_reply-Inv kind p c v =
      and_then-Holds id (Inv id) (Inv id) (ensure_assistant_stage_for_reply w kind c) _
        (ensure_assistant_stage_for_reply-Inv w id kind c v)
        (λ i e u.
          let e' = change_stage i (with_reply w kind p) e in
          if-Holds id (Inv id) e'.promoted _ _
            (λ task.
              and_done-Holds id (Inv id) (publish_assistant_stage w i (so_far (is_final w kind)) e')
                (publish_assistant_stage-Inv w id i (so_far (is_final w kind)) e' u))
            (λ bare. u))

  handle_kind-Inv :
      (p : NormalizedReplyPayload) (kind : ReplyDispatchKind) (c : Coordinator)
      → Inv id c
      → Holds id (Inv id) (handle_kind w p kind c)
  handle_kind-Inv p tool c v = handle_tool_reply-Inv p c v
  handle_kind-Inv p block c v = handle_text_reply-Inv block p c v
  handle_kind-Inv p final c v = handle_text_reply-Inv final p c v

  pub handle_reply_payload-Inv :
      (payload : Json) (kind : ReplyDispatchKind) (c : Coordinator)
      → Inv id c
      → Holds id (Inv id) (handle_reply_payload w payload kind c)
  unfolding handle_reply_payload
  handle_reply_payload-Inv payload kind c v =
      and_then-Holds id (Inv id) (Inv id) (flush_queued_assistant_artifact w c) _
        (flush_queued_assistant_artifact-Inv w id c v)
        (λ _ e u. handle_kind-Inv (normalize_reply_payload payload) kind e u)
