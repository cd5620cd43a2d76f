-- ===== src/Inbound/Merge/Examples.antt =====
-- The theorems on merging at a concrete task.
use openclaw_a2a_plugins.Base.{◌≡◌, refl, true, false, some, List, [], ◌∷◌}
use openclaw_a2a_plugins.Base.Text.{codes, text_eq}
use openclaw_a2a_plugins.Inbound.Protocol.{JournalEvent}
use openclaw_a2a_plugins.Inbound.Samples.{words, fresh_task, chunk}
use openclaw_a2a_plugins.Inbound.Merge.{replay}
use openclaw_a2a_plugins.Inbound.Merge.Histories.{HasDistinctMessages, replay-HasDistinctMessages}
use openclaw_a2a_plugins.Inbound.Merge.Artifacts.{
  artifact_parts, find_artifact, replay-artifact_parts,
}

abbrev chunks : List JournalEvent
chunks = chunk false (codes "ab") ∷ chunk true (codes "c") ∷ []

replay-artifact_parts_example :
    artifact_parts (codes "a1") (replay fresh_task chunks)
    ≡ some (words (codes "ab") ∷ words (codes "c") ∷ [])
unfolding find_artifact text_eq
replay-artifact_parts_example = replay-artifact_parts (codes "a1") fresh_task chunks

replay-HasDistinctMessages_example : HasDistinctMessages (replay fresh_task chunks)
replay-HasDistinctMessages_example = replay-HasDistinctMessages fresh_task chunks (refl, tt)
