-- ===== src/Inbound/RequestHandler/Sends/Examples.antt =====
-- A first message, for which the agent makes a task.
use openclaw_a2a_plugins.Base.{none, some, [], ◌∷◌, ◌≡◌, refl, false}
use openclaw_a2a_plugins.Base.Text.{codes}
use openclaw_a2a_plugins.Base.Dict.{get}
use openclaw_a2a_plugins.Inbound.Protocol.{str, obj, field, end}
use openclaw_a2a_plugins.Inbound.Samples.{hello, fresh_task}
use openclaw_a2a_plugins.Inbound.TaskStore.{empty_store}
use openclaw_a2a_plugins.Inbound.LiveExecutions.{get_request_mode}
use openclaw_a2a_plugins.Inbound.Coordinator.{bus_task}
use openclaw_a2a_plugins.Inbound.Coordinator.Stream.Examples.{platform, nobody}
use openclaw_a2a_plugins.Inbound.RequestHandler.Contexts.{Incoming, RequestContext}
use openclaw_a2a_plugins.Inbound.RequestHandler.Contexts.Resumptions.{alone}
use openclaw_a2a_plugins.Inbound.RequestHandler.Executions.{event}
use openclaw_a2a_plugins.Inbound.RequestHandler.Sends.{Course, send_message}
use openclaw_a2a_plugins.Inbound.RequestHandler.Sends.Modes.{send_message-request_mode}

abbrev first_message : Incoming
first_message = record {
  message = hello;
  parts = obj (field (codes "text") (str (codes "hello")) end) ∷ [];
  reference_task_ids = [];
  accepted_output_modes = none;
}

abbrev course : RequestContext → Course
course context = record {
  turns = event (bus_task fresh_task) ∷ [];
  rejection = none;
  late = λ s. s;
  on_live = λ live. live;
}

nobody_waits : get_request_mode (codes "m1") nobody ≡ none
unfolding get_request_mode get
nobody_waits = refl

send_message-request_mode_example :
    get_request_mode
      (codes "m1")
      (send_message alone platform 0 [] []
        (some false)
        none
        first_message
        course
        empty_store
        nobody).1
    ≡ none
send_message-request_mode_example =
    send_message-request_mode alone platform 0 [] [] (some false) none first_message course
      empty_store nobody nobody_waits
