-- ===== src/Outbound/TaskHandles/Examples.antt =====
-- The theorems on task handles at concrete registries.
use openclaw_a2a_plugins.Base.{ℕ, ◌+◌, ◌≡◌, refl, none, some, List, [], ◌∷◌, arith, ◌⊎◌}
use openclaw_a2a_plugins.Base.Text.{Text, codes, text_eq, text_ne}
use openclaw_a2a_plugins.Base.Dict.{get, set, delete}
use openclaw_a2a_plugins.Outbound.Targets.{ResolvedTarget}
use openclaw_a2a_plugins.Outbound.TaskHandles.{
  TaskHandleRecord, Registry, Created, Refreshed, ok, prune_expired, evict_rounds, oldest_from,
  evict_least_recently_used, empty_registry, require_live_entry, handle_of, create, touched,
  resolve, refresh,
}
use openclaw_a2a_plugins.Outbound.TaskHandles.Evict.{NoOlder}
use openclaw_a2a_plugins.Outbound.TaskHandles.Invariant.{
  Inv, Call, creates, resolves, calls, calls-empty_registry-Inv,
}
use openclaw_a2a_plugins.Outbound.TaskHandles.Methods.{
  resolve_lem, refresh_lem, create_evicts_oldest,
}
use openclaw_a2a_plugins.Outbound.TaskHandles.Fresh.{resolve_each, create-resolve}

abbrev peer : ResolvedTarget
peer = record {
  base_url = codes "https://b.example";
  card_path = codes "/card";
  preferred_transports = codes "JSONRPC" ∷ [];
  alias = some (codes "b");
  display_name = none;
  description = none;
  streaming_supported = none;
}

abbrev entry : Text → ℕ → TaskHandleRecord
entry uuid at = record {
  task_handle = handle_of uuid;
  target = peer;
  task_id = codes "t1";
  context_id = none;
  created_at = at;
  last_accessed_at = at;
  expires_at = at + 10;
}

-- Two of two handles, made at 1 and 3, each living for ten milliseconds.
abbrev two : Registry
two = record {
  ttl_ms = 10;
  max_entries = 2;
  entries =
      (handle_of (codes "x"), entry (codes "x") 1)
      ∷ (handle_of (codes "y"), entry (codes "y") 3)
      ∷ [];
}

two-Inv : Inv two
unfolding get text_eq
two-Inv = record {
  unique = (refl, (refl, tt));
  keyed = (((λ e. cc), refl), (((λ e. cc), refl), tt));
  bounded = omega arith;
}

abbrev input : Created
input = record { target = peer; task_id = codes "t2"; context_id = none }

-- The third handle pushes out the one that was used longest ago, unless it was touched meanwhile.
evicts :
    (get (handle_of (codes "x")) (create two 5 (codes "z") input).0.entries ≡ none)
    × (get
          (handle_of (codes "x"))
          (create (resolve two (handle_of (codes "x")) 4).0 5 (codes "z") input).0.entries
        ≡ some (touched (entry (codes "x") 1) 4))
unfolding create prune_expired evict_least_recently_used evict_rounds oldest_from get set delete
    text_eq resolve require_live_entry
evicts = (refl, refl)

abbrev x : Text
x = handle_of (codes "x")

abbrev client : List (ℕ × Call)
client = (1, creates (codes "x") input) ∷ (2, resolves x) ∷ (90, resolves x) ∷ []

calls-empty_registry-Inv_example : Inv (calls (empty_registry 10 2) client)
calls-empty_registry-Inv_example = calls-empty_registry-Inv 10 2 client

at_x : get x two.entries ≡ some (entry (codes "x") 1)
unfolding get text_eq
at_x = refl

resolve_lem_example : (resolve two x 4).1 ≡ ok (touched (entry (codes "x") 1) 4)
unfolding get text_eq
resolve_lem_example = (resolve_lem x 4 two two-Inv).0

abbrev renamed : Refreshed
renamed = record { target = none; task_id = some (codes "t9"); context_id = none }

refresh_lem_example :
    (refresh two x renamed 6).1
    ≡ ok (record (entry (codes "x") 1) {
      task_id = codes "t9";
      last_accessed_at = 6;
      expires_at = 16;
    })
unfolding get text_eq
refresh_lem_example = (refresh_lem x renamed 6 two two-Inv).0

create_evicts_oldest_example :
    let left = (create two 5 (codes "z") input).0.entries in
    (get x left ≡ some (entry (codes "x") 1))
    ⊎ ((get x left ≡ none) × NoOlder (entry (codes "x") 1) left)
unfolding text_eq
create_evicts_oldest_example =
    create_evicts_oldest two 5 (codes "z") input x (entry (codes "x") 1) two-Inv at_x (omega arith)
      (text_ne {s = x} {t = handle_of (codes "z")} refl)

create-resolve_example :
    (resolve
      (resolve_each ((handle_of (codes "z"), 6) ∷ []) (create two 5 (codes "z") input).0)
      (handle_of (codes "z"))
      7).1
    ≡ ok (record (entry (codes "z") 5) { task_id = codes "t2"; last_accessed_at = 7 })
unfolding get text_eq
create-resolve_example =
    create-resolve two 5 7 (codes "z") input ((handle_of (codes "z"), 6) ∷ []) two-Inv (omega arith)
      refl (omega arith) (omega arith, tt)
