-- ===== src/Inbound/TaskStore/Examples.antt =====
-- The theorems on the task store at concrete histories.
use openclaw_a2a_plugins.Base.{◌≡◌, true, false, List, [], ◌∷◌}
use openclaw_a2a_plugins.Base.Text.{codes}
use openclaw_a2a_plugins.Inbound.Samples.{fresh_task, chunk}
use openclaw_a2a_plugins.Inbound.TaskStore.{
  StoredTaskBinding, binding_peer, server_user_name, empty_store, load_binding,
}
use openclaw_a2a_plugins.Inbound.TaskStore.Bindings.{load_binding-call}
use openclaw_a2a_plugins.Inbound.TaskStore.Wellformed.{Inv}
use openclaw_a2a_plugins.Inbound.TaskStore.Wellformed.Steps.{
  Call, call, calls, calls-empty_store-Inv, saves, primes, commits_event, prepares,
}

abbrev pub route : StoredTaskBinding
route = record {
  agent_id = codes "main";
  channel = codes "a2a";
  account_id = codes "default";
  matched_by = binding_peer;
  session_key = codes "agent:main:a2a";
  main_session_key = codes "agent:main";
  store_path = codes "sessions";
  peer_kind = codes "direct";
  peer_id = codes "alice";
  peer_source = server_user_name;
  created_at = codes "now";
  updated_at = codes "now";
}

abbrev history : List Call
history =
    primes (codes "t1") route
    ∷ saves fresh_task
    ∷ prepares (codes "t1") true
    ∷ commits_event (chunk false (codes "ab"))
    ∷ []

calls-empty_store-Inv_example : Inv (calls empty_store history)
calls-empty_store-Inv_example = calls-empty_store-Inv history

load_binding-call_example :
    let s = call empty_store (primes (codes "t1") route) in
    load_binding (codes "t1") (call s (saves fresh_task)) ≡ load_binding (codes "t1") s
load_binding-call_example =
    load_binding-call (codes "t1") (call empty_store (primes (codes "t1") route)) (saves fresh_task)
      (λ e. e)
