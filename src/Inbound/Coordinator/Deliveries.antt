-- ===== src/Inbound/Coordinator/Deliveries.antt =====
-- The replies that the coordinator is handed, of
-- packages/openclaw-a2a-inbound/src/task-execution-coordinator.ts.
use openclaw_a2a_plugins.Base.{true, ◌||◌, [], ◌∷◌, ◌++◌, or_option, if◌then◌else◌}
use openclaw_a2a_plugins.Inbound.Protocol.{Json}
use openclaw_a2a_plugins.Inbound.Replies.{
  Ambient, NormalizedReplyPayload, normalize_reply_payload, truthy_text,
}
use openclaw_a2a_plugins.Inbound.Coordinator.{
  AssistantStage, tool_stage, Coordinator, Outcome, returned, and_then, change_stage,
}
use openclaw_a2a_plugins.Inbound.Coordinator.Publishing.{
  publish_assistant_stage, publish_tool_artifact, promote_to_task,
}
use openclaw_a2a_plugins.Inbound.Coordinator.Reading.{
  ReplyDispatchKind, tool, block, final, merge_media_urls, so_far,
}
use openclaw_a2a_plugins.Inbound.Coordinator.Stages.{
  ensure_assistant_stage_for_reply, flush_queued_assistant_artifact, is_final,
}
use openclaw_a2a_plugins.Inbound.Coordinator.Events.{listed}

module _ (w : Ambient) where
  abbrev pub with_reply :
      ReplyDispatchKind → NormalizedReplyPayload → AssistantStage → AssistantStage
  with_reply final p s = record s {
    final_seen = true;
    final_text = or_option (truthy_text p.text) s.final_text;
    media_urls = merge_media_urls s.media_urls p.media_urls;
    has_vendor_content = s.has_vendor_content || p.has_vendor_content;
  }
  with_reply _ p s = record s {
    block_texts = s.block_texts ++ listed w (truthy_text p.text);
    media_urls = merge_media_urls s.media_urls p.media_urls;
    has_vendor_content = s.has_vendor_content || p.has_vendor_content;
  }

  abbrev pub handle_tool_reply : NormalizedReplyPayload → Coordinator → Outcome Unit
  handle_tool_reply p c =
      if c.promoted
      then publish_tool_artifact w p c
      else promote_to_task w (record c { staged_outputs = c.staged_outputs ++ tool_stage p ∷ [] })

  abbrev pub handle_text_reply :
      ReplyDispatchKind → NormalizedReplyPayload → Coordinator → Outcome Unit
  handle_text_reply kind p c = and_then (ensure_assistant_stage_for_reply w kind c) λ i c.
      let c' = change_stage i (with_reply kind p) c in
      if c'.promoted
      then (and_then (publish_assistant_stage w i (so_far (is_final w kind)) c')
          λ _ c. returned tt c)
      else returned tt c'

  abbrev pub handle_kind : NormalizedReplyPayload → ReplyDispatchKind → Coordinator → Outcome Unit
  handle_kind p tool c = handle_tool_reply p c
  handle_kind p block c = handle_text_reply block p c
  handle_kind p final c = handle_text_reply final p c

  unfoldable pub handle_reply_payload : Json → ReplyDispatchKind → Coordinator → Outcome Unit
  handle_reply_payload payload kind c =
      and_then (flush_queued_assistant_artifact w c)
        λ _ c. handle_kind (normalize_reply_payload payload) kind c
