-- ===== src/Outbound/Requests/Options.antt =====
-- Which of an explicit option and a default counts.
mod Examples
use openclaw_a2a_plugins.Base.{
  ℕ, ◌≡◌, refl, Bool, true, false, Option, none, some, List, [], ◌∷◌, map, or_else, or_option, ap,
  ◌∙◌, sym, Option-cases, inl, inr,
}
use openclaw_a2a_plugins.Base.Text.{Text}
use openclaw_a2a_plugins.Base.Results.{Result, ok, err, and_then}
use openclaw_a2a_plugins.Base.Dict.{Dict, get, IsMap, spread, get-spread}
use openclaw_a2a_plugins.Outbound.Requests.{
  SendActionInput, NormalizationOptions, NormalizedSendRequest, MergedSignal, only, any_of, Signal,
  timeout, RequestOptions, merge_service_parameters, unless_empty, merge_signals, clone_part,
  build_send_configuration, build_request_options, normalize_send_request,
  normalize_strict_task_creation_send_request,
}

get-unless_empty : (k : Text) (m : Dict Text) → get k (or_else (unless_empty m) []) ≡ get k m
get-unless_empty k [] = refl
get-unless_empty k (entry ∷ m) = refl

abbrev waits_for : ℕ → Option Signal → MergedSignal
waits_for ms none = only (timeout ms)
waits_for ms (some s) = any_of (timeout ms ∷ s ∷ [])

-- What a request that was normalized has in it.
pub record Respects (uuid : Text) (input : SendActionInput) (options : NormalizationOptions)
    (blocking : Option Bool) (n : NormalizedSendRequest) : Type 0 where
  pub message_id : n.message.message_id ≡ or_else input.message_id uuid
  pub parts : n.message.parts ≡ map clone_part input.parts
  pub modes :
      n.configuration.accepted_output_modes
      ≡ or_else input.accepted_output_modes options.default_accepted_output_modes
  pub task_id : n.message.task_id ≡ input.task_id
  pub context_id : n.message.context_id ≡ input.context_id
  pub references : n.message.reference_task_ids ≡ input.reference_task_ids
  pub metadata : n.metadata ≡ input.metadata
  pub history_length : n.configuration.history_length ≡ input.history_length
  pub push_notification_config :
      n.configuration.push_notification_config ≡ input.push_notification_config
  pub is_blocking : n.configuration.blocking ≡ blocking
  pub signal :
      n.request_options.signal
      ≡ waits_for (or_else input.timeout_ms options.default_timeout_ms) options.signal
  pub parameters :
      (k : Text)
      → get k (or_else n.request_options.service_parameters [])
        ≡ or_option
            (get k (or_else input.service_parameters []))
            (get k options.default_service_parameters)

-- The request is made, and it is so.
abbrev pub Made : {A : Type 0} → (A → Type 0) → Result Text A → Type 0
Made P (ok a) = P a
Made P (err e) = ⊥

-- There is always the signal of the timeout, so merging the signals cannot fail.
build_request_options-ok :
    (ms : Option ℕ) (default_ms : ℕ) (base : Dict Text) (override : Option (Dict Text))
    (signal : Option Signal)
    → build_request_options ms default_ms base override signal
      ≡ ok (record {
        signal = waits_for (or_else ms default_ms) signal;
        service_parameters = merge_service_parameters base override;
      })
unfolding build_request_options
build_request_options-ok ms default_ms base override none = refl
build_request_options-ok ms default_ms base override (some s) = refl

parameters-merged :
    (k : Text) (base : Dict Text) (override : Option (Dict Text))
    → IsMap (or_else override [])
    → get k (or_else (merge_service_parameters base override) [])
      ≡ or_option (get k (or_else override [])) (get k base)
parameters-merged k base override u =
    get-unless_empty k (spread base (or_else override []))
    ∙ get-spread k base (or_else override []) u

-- A send action is always turned into a request. Each explicit option counts and the default fills
-- in for one that is not given, service parameters key by key; the request waits for the timeout
-- and for the caller's signal. The strict variant is the same but never blocks.
pub normalize_send_request_lem :
    (uuid : Text) (input : SendActionInput) (options : NormalizationOptions)
    → IsMap (or_else input.service_parameters [])
    → Made (Respects uuid input options input.blocking) (normalize_send_request uuid input options)
      × Made
          (Respects uuid input options (some false))
          (normalize_strict_task_creation_send_request uuid input options)
unfolding normalize_send_request normalize_strict_task_creation_send_request
    build_send_configuration
normalize_send_request_lem uuid input options u =
    rw
      (build_request_options-ok input.timeout_ms options.default_timeout_ms
        options.default_service_parameters input.service_parameters options.signal)
      (
        record {
          message_id = refl;
          parts = refl;
          modes = refl;
          task_id = refl;
          context_id = refl;
          references = refl;
          metadata = refl;
          history_length = refl;
          push_notification_config = refl;
          is_blocking = refl;
          signal = refl;
          parameters = λ k.
              parameters-merged k options.default_service_parameters input.service_parameters u;
        },
        record {
          message_id = refl;
          parts = refl;
          modes = refl;
          task_id = refl;
          context_id = refl;
          references = refl;
          metadata = refl;
          history_length = refl;
          push_notification_config = refl;
          is_blocking = refl;
          signal = refl;
          parameters = λ k.
              parameters-merged k options.default_service_parameters input.service_parameters u;
        },
      )
