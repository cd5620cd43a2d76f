-- ===== src/Inbound/Coordinator/Streaming/Examples.antt =====
-- A delta of a stage for a client that has read its beginning.
use openclaw_a2a_plugins.Base.{◌≡◌, refl, true, false, none, some, [], ◌∷◌}
use openclaw_a2a_plugins.Base.Text.{codes}
use openclaw_a2a_plugins.Inbound.Samples.{fresh_task, words}
use openclaw_a2a_plugins.Inbound.Replies.{BuiltReplyContent}
use openclaw_a2a_plugins.Inbound.Coordinator.{AssistantStage, Coordinator, hybrid}
use openclaw_a2a_plugins.Inbound.Coordinator.Reading.{new_stage}
use openclaw_a2a_plugins.Inbound.Coordinator.Publishing.{
  publish_content, extract_text, assistant_artifact_id,
}
use openclaw_a2a_plugins.Inbound.Coordinator.Finalize.{create}
use openclaw_a2a_plugins.Inbound.Coordinator.Streaming.{shown_text, publish_content-shown_text}
use openclaw_a2a_plugins.Inbound.Coordinator.Stream.Examples.{platform, request, nobody}

abbrev spoken : BuiltReplyContent
spoken = record {
  parts = words (codes "ab") ∷ [];
  available_output_modes = codes "text/plain" ∷ [];
  has_candidates = true;
}

abbrev first_stage : AssistantStage
first_stage = new_stage 1

abbrev started : Coordinator
started = record (create request hybrid none none 0 1 none nobody) {
  promoted = true;
  assistant_stages = first_stage ∷ [];
}

publish_content-shown_text_example :
    shown_text
      (assistant_artifact_id 1)
      fresh_task
      (publish_content platform 0 first_stage spoken false started).published
    ≡ some (codes "ab")
unfolding extract_text
publish_content-shown_text_example =
    (publish_content-shown_text platform 0 first_stage spoken false started fresh_task refl
      (λ e. cc)).0
