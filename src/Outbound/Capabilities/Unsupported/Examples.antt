-- ===== src/Outbound/Capabilities/Unsupported/Examples.antt =====
-- A text for a target whose card takes documents only.
use openclaw_a2a_plugins.Base.{true, false, some, none, [], ◌∷◌}
use openclaw_a2a_plugins.Base.Text.{codes, text_eq}
use openclaw_a2a_plugins.Base.Strings.{trim}
use openclaw_a2a_plugins.Inbound.Coordinator.Stream.Examples.{platform}
use openclaw_a2a_plugins.Outbound.Requests.{text_input}
use openclaw_a2a_plugins.Outbound.Capabilities.{
  TargetCardSnapshot, CapabilityDiagnostics, evaluate_send_compatibility,
}
use openclaw_a2a_plugins.Outbound.Capabilities.Unsupported.{
  IsReported, evaluate_send_compatibility_lem,
}

abbrev documents_only : TargetCardSnapshot
documents_only = record {
  default_input_modes = codes "application/pdf" ∷ [];
  default_output_modes = codes "text/plain" ∷ [];
  skills = [];
}

abbrev diagnostics : CapabilityDiagnostics
diagnostics =
    evaluate_send_compatibility platform (text_input (codes "hi") none ∷ [])
      (codes "text/plain" ∷ []) (some documents_only)

evaluate_send_compatibility_lem_example :
    IsReported
      (codes "text/plain")
      diagnostics.requested_input_modes
      true
      diagnostics.advertised_input_modes
      false
      diagnostics.unsupported_input_modes
    × IsReported
        (codes "text/plain")
        diagnostics.requested_output_modes
        true
        diagnostics.advertised_output_modes
        true
        diagnostics.unsupported_output_modes
unfolding trim text_eq
evaluate_send_compatibility_lem_example =
    evaluate_send_compatibility_lem platform (text_input (codes "hi") none ∷ [])
      (codes "text/plain" ∷ []) (some documents_only) (codes "text/plain")
