-- ===== src/Inbound/RequestHandler/Sends/Modes.antt =====
-- A request leaves no response mode behind.
use openclaw_a2a_plugins.Base.{ℕ, ◌≡◌, Bool, Option, none, List, [], ◌∷◌}
use openclaw_a2a_plugins.Base.Text.{Text}
use openclaw_a2a_plugins.Base.Results.{Result, ok, err}
use openclaw_a2a_plugins.Inbound.TaskStore.{Store}
use openclaw_a2a_plugins.Inbound.LiveExecutions.{
  LiveExecutions, InitialResponseMode, get_request_mode,
}
use openclaw_a2a_plugins.Inbound.LiveExecutions.RequestModes.{get_request_mode-clear_request_mode}
use openclaw_a2a_plugins.Inbound.Replies.{Ambient}
use openclaw_a2a_plugins.Inbound.SessionRouting.Parts.{PartError, validate_inbound_message_parts}
use openclaw_a2a_plugins.Inbound.RequestHandler.{HandlerError}
use openclaw_a2a_plugins.Inbound.RequestHandler.Contexts.{
  CallContext, Incoming, RequestContext, bootstrap_execution, bootstrapped, if_valid, with_id,
}
use openclaw_a2a_plugins.Inbound.RequestHandler.Sends.{
  Course, send_message, after_bootstrap, waits_for_end,
}

-- A start that failed leaves no mode for the message.
abbrev IsClean : Text → Store × LiveExecutions × Result HandlerError RequestContext → Type 0
IsClean id (s, live, err e) = get_request_mode id live ≡ none
IsClean id (s, live, ok context) = Unit

bootstrapped-IsClean :
    (id : Text) (live : LiveExecutions) (r : Store × Result HandlerError RequestContext)
    → IsClean id (bootstrapped id live r)
bootstrapped-IsClean id live (s, err e) = get_request_mode-clear_request_mode id live
bootstrapped-IsClean id live (s, ok context) = tt

module _ (others : ℕ → Store → Store) (a : Ambient) (n : ℕ) (exposed defaults : List Text) where
  with_id-IsClean :
      (mode : InitialResponseMode) (call : Option CallContext) (incoming : Incoming) (id : Text)
      (s : Store) (live : LiveExecutions)
      → get_request_mode id live ≡ none
      → IsClean id (with_id others a n exposed defaults mode call incoming id s live)
  with_id-IsClean mode call incoming [] s live h = h
  with_id-IsClean mode call incoming (c ∷ id) s live h = bootstrapped-IsClean (c ∷ id) _ _

  if_valid-IsClean :
      (id : Text) (checked : Result PartError (Unit {0}))
      (rest : Store × LiveExecutions × Result HandlerError RequestContext) (s : Store)
      (live : LiveExecutions)
      → get_request_mode id live ≡ none
      → IsClean id rest
      → IsClean id (if_valid checked rest s live)
  if_valid-IsClean id (err e) rest s live h k = h
  if_valid-IsClean id (ok u) rest s live h k = k

  after_bootstrap-mode :
      (waits : Bool) (id : Text) (course : RequestContext → Course)
      (r : Store × LiveExecutions × Result HandlerError RequestContext)
      → IsClean id r
      → get_request_mode id (after_bootstrap waits id course r).1 ≡ none
  after_bootstrap-mode waits id course (s, live, err e) h = h
  after_bootstrap-mode waits id course (s, live, ok context) h =
      get_request_mode-clear_request_mode id _

  -- A message that had no response mode has none once its request is answered or refused, whatever
  -- happens meanwhile.
  pub send_message-request_mode :
      (block : Option Bool) (call : Option CallContext) (incoming : Incoming)
      (course : RequestContext → Course) (s : Store) (live : LiveExecutions)
      → get_request_mode incoming.message.message_id live ≡ none
      → get_request_mode incoming.message.message_id
          (send_message others a n exposed defaults block call incoming course s live).1
        ≡ none
  unfolding send_message bootstrap_execution
  send_message-request_mode block call incoming course s live h =
      after_bootstrap-mode (waits_for_end block) incoming.message.message_id course _ (
        if_valid-IsClean incoming.message.message_id (validate_inbound_message_parts incoming.parts)
          _ s live h (with_id-IsClean _ call incoming incoming.message.message_id s live h))
