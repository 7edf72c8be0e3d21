-- ===== src/ProviderRegistry.antt =====
-- core/agent/ProviderRegistry.hpp and ProviderRegistry.cpp: the user interfaces that have
-- registered, and the one that is active.
pub mod Choice
pub mod Recompute
pub mod Authority
use noctalia_unofficial_auth.Base.{
  ℕ, ◌-◌, String, Bool, true, false, not, ◌&&◌, ◌||◌, Option, none, some, List, [], ◌∷◌, map, ltb,
  ◌==◌, if◌then◌else◌, is_some, comparable_nat, comparable_string,
}
use noctalia_unofficial_auth.Base.Int.{ℤ, pos, negsuc, ltb_int, comparable_int}
use noctalia_unofficial_auth.Base.Table.{Table, lookup, insert, remove, contains}
use noctalia_unofficial_auth.EventQueue.{Socket, nullptr, is_nil}
use noctalia_unofficial_auth.Environment.{Env}
use noctalia_unofficial_auth.Json
use noctalia_unofficial_auth.Json.{JsonObject, value, to_string, to_int}

pub record UiProvider : Type 0 where
  pub id : String
  pub name : String
  pub kind : String
  pub priority : ℤ
  pub last_heartbeat_ms : ℕ

abbrev pub default_provider : UiProvider
default_provider = record { id = ""; name = ""; kind = ""; priority = pos 0; last_heartbeat_ms = 0 }

pub record ProviderRegistry : Type 0 where
  pub ui_providers : Table Socket UiProvider
  pub active_provider : Socket

abbrev pub heartbeat_timeout_ms : ℕ
heartbeat_timeout_ms = 15000

-- std::numeric_limits<int>::min()
abbrev pub int_min : ℤ
int_min = negsuc 2147483647

abbrev or_default : Option UiProvider → UiProvider
or_default none = default_provider
or_default (some p) = p

abbrev pub or_else : String → String → String
or_else s d = if s == "" then d else s

unfoldable pub choose_priority : JsonObject → String → ℤ
choose_priority msg kind =
    if Json.contains "priority" msg
    then to_int (value "priority" msg)
    else if kind == "quickshell"
    then pos 100
    else if kind == "fallback"
    then pos 10
    else pos 50

module _ (env : Env) where
  unfoldable pub make_provider : JsonObject → UiProvider → UiProvider
  make_provider msg old =
      let name = or_else (to_string (value "name" msg)) "unknown" in
      let kind = or_else (to_string (value "kind" msg)) name in
      record {
        id = or_else old.id env.uuid;
        name = name;
        kind = kind;
        priority = choose_priority msg kind;
        last_heartbeat_ms = env.now_ms;
      }

  unfoldable pub register_provider :
      Socket → JsonObject → ProviderRegistry → UiProvider × ProviderRegistry
  unfolding make_provider
  register_provider s msg r =
      let p = make_provider msg (or_default (lookup s r.ui_providers)) in
      (p, record r { ui_providers = insert s p r.ui_providers })

  unfoldable pub heartbeat : Socket → ProviderRegistry → Bool × ProviderRegistry
  heartbeat s r = elim (lookup s r.ui_providers) [
    | none ↦ (false, r)
    | some p ↦ (
      true,
      record r {
        ui_providers = insert s (record p { last_heartbeat_ms = env.now_ms }) r.ui_providers;
      },
    )
  ]

  -- socketInvalid || stale
  unfoldable pub dropped : Socket → UiProvider → Bool
  dropped s p =
      (s == nullptr || not (env.connected s))
      || ltb heartbeat_timeout_ms (env.now_ms - p.last_heartbeat_ms)

unfoldable pub unregister_provider : Socket → ProviderRegistry → Bool × ProviderRegistry
unregister_provider s r =
    (contains s r.ui_providers, record r { ui_providers = remove s r.ui_providers })

unfoldable pub remove_socket : Socket → ProviderRegistry → Bool × ProviderRegistry
remove_socket = unregister_provider

-- The variables of the loop in recomputeActiveProvider.
pub record Best : Type 0 where
  pub socket : Socket
  pub priority : ℤ
  pub heartbeat : ℕ

abbrev pub no_best : Best
no_best = record { socket = nullptr; priority = int_min; heartbeat = 0 }

unfoldable pub better : Best → UiProvider → Bool
better b p =
    b.socket == nullptr
    || ltb_int b.priority p.priority
    || (p.priority == b.priority && ltb b.heartbeat p.last_heartbeat_ms)

unfoldable pub pick : Best → Socket → UiProvider → Best
pick b s p =
    if better b p
    then record { socket = s; priority = p.priority; heartbeat = p.last_heartbeat_ms }
    else b

module _ (env : Env) where
  unfoldable pub scan : Table Socket UiProvider → Best → Table Socket UiProvider × Best
  scan [] b = ([], b)
  scan ((s, p) ∷ m) b =
      let out = dropped env s p in
      let (kept, best) = scan m (if out then b else pick b s p) in
      (if out then kept else (s, p) ∷ kept, best)

  unfoldable pub recompute_active_provider : ProviderRegistry → Bool × ProviderRegistry
  recompute_active_provider r =
      let (kept, best) = scan r.ui_providers no_best in
      (
        not (r.active_provider == best.socket),
        record { ui_providers = kept; active_provider = best.socket },
      )

  unfoldable pub prune_stale : ProviderRegistry → Bool × ProviderRegistry
  prune_stale = recompute_active_provider

unfoldable pub is_authorized : Socket → ProviderRegistry → Bool
is_authorized s r =
    if is_nil r.ui_providers
    then true
    else if not (contains s r.ui_providers)
    then false
    else s == r.active_provider

unfoldable pub has_active_provider : ProviderRegistry → Bool
has_active_provider r =
    not (r.active_provider == nullptr) && contains r.active_provider r.ui_providers

unfoldable pub active_provider_info : ProviderRegistry → Option UiProvider
unfolding has_active_provider
active_provider_info r =
    if has_active_provider r then lookup r.active_provider r.ui_providers else none

unfoldable pub provider : Socket → ProviderRegistry → Option UiProvider
provider s r = lookup s r.ui_providers

abbrev pub is_registered : Socket → ProviderRegistry → Bool
is_registered s r = contains s r.ui_providers

unfoldable pub sockets : ProviderRegistry → List Socket
sockets r = map (λ entry. entry.0) r.ui_providers

-- The QPointer to the active provider clears itself when its socket is deleted.
unfoldable pub socket_deleted : Socket → ProviderRegistry → ProviderRegistry
socket_deleted s r = record r {
  active_provider = if r.active_provider == s then nullptr else r.active_provider;
}
