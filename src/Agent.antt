-- ===== src/Agent.antt =====
-- core/Agent.hpp and the session half of Agent.cpp: the state of the daemon, and the operations on
-- it that the managers and the listener call.
pub mod Steps
pub mod Emit
pub mod Operations
pub mod SessionMap
use noctalia_unofficial_auth.Base.{
  ℕ, ◌-◌, String, Bool, true, false, not, ◌&&◌, ◌||◌, Option, none, some, List, [], ◌∷◌, ◌==◌, ltb,
  if◌then◌else◌, comparable_nat, comparable_string,
}
use noctalia_unofficial_auth.Base.Int.{ℤ}
use noctalia_unofficial_auth.Base.Lists.{contains}
use noctalia_unofficial_auth.Base.Table.{Table}
use noctalia_unofficial_auth.Json.{JsonObject, boolean, num, str, empty, object, set}
use noctalia_unofficial_auth.Session.{Session, Source, Context, Result}
use noctalia_unofficial_auth.EventQueue.{Socket, nullptr, EventQueue}
use noctalia_unofficial_auth.Environment.{Env}
use noctalia_unofficial_auth.ProviderRegistry
use noctalia_unofficial_auth.ProviderRegistry.{
  ProviderRegistry, UiProvider, has_active_provider, active_provider_info,
  recompute_active_provider, sockets,
}
use noctalia_unofficial_auth.EventRouter.{route, usable}
use noctalia_unofficial_auth.SessionStore
use noctalia_unofficial_auth.SessionStore.{Sessions}
use noctalia_unofficial_auth.RequestTypes.{KeyringRequest, PinentryTables, PolkitTables, Handle}

-- What the daemon does to the outside.
pub data Effect : Type 0 where
  -- IpcServer::sendJson to a connected socket, and whether the buffer is wiped afterwards.
  sent : Socket → JsonObject → Bool → Effect
  -- QProcess::startDetached with its arguments.
  launched : String → List String → Effect
  -- AsyncResult::setError and setCompleted, by the cookie of the request.
  result_error : String → String → Effect
  result_completed : String → Effect
  -- PolkitQt1::Agent::Session: construction, initiate, setResponse, cancel, deleteLater.
  auth_created : Handle → String → Effect
  auth_initiated : Handle → Effect
  auth_response : Handle → String → Effect
  auth_cancelled : Handle → Effect
  auth_deleted : Handle → Effect
  -- A SessionState is used after it was deleted.
  used_after_free : String → Effect
  -- The signal CPolkitListener::completed.
  completed : Bool → Effect

-- `trace` is what the daemon has done so far, newest first.
pub record Agent : Type 0 where
  pub keyring_requests : Table String KeyringRequest
  pub flows : PinentryTables
  pub listener : PolkitTables
  pub registry : ProviderRegistry
  pub event_queue : EventQueue
  pub sessions : Sessions
  pub subscribers : List Socket
  pub socket_path : String
  pub last_fallback_launch_ms : ℕ
  pub trace : List Effect

abbrev pub emit : Effect → Agent → Agent
emit e a = record a { trace = e ∷ a.trace }

abbrev pub fallback_launch_cooldown_ms : ℕ
fallback_launch_cooldown_ms = 5000

-- status["id"] = …
abbrev pub describe : Option UiProvider → JsonObject → JsonObject
describe none o = o
describe (some p) o =
    set "priority" (num p.priority)
      (set "kind" (str p.kind) (set "name" (str p.name) (set "id" (str p.id) o)))

abbrev pub socket_args : String → List String
socket_args path = if path == "" then [] else "--socket" ∷ path ∷ []

-- if (recomputeActiveProvider()) emitProviderStatus();
abbrev store_registry : ProviderRegistry → Agent → Agent
store_registry r a = record a { registry = r }

module _ (env : Env) where
  -- IpcServer::sendJson
  unfoldable pub send_json : Socket → JsonObject → Bool → Agent → Agent
  send_json s json wipe a =
      if s == nullptr || not (env.connected s) then a else emit (sent s json wipe) a

  abbrev pub send : Socket → JsonObject → Agent → Agent
  send s json a = send_json s json false a

  unfoldable pub emit_session_event : JsonObject → Agent → Agent
  emit_session_event event a =
      let (q, b) = route env send a.registry a.event_queue event a.subscribers a in
      record b { event_queue = q }

  -- The two loops of emitProviderStatus; `sent_to` is the set `sent`.
  unfoldable pub send_to_all : JsonObject → List Socket → Agent → Agent
  send_to_all status [] a = a
  send_to_all status (s ∷ ss) a =
      send_to_all status ss (if usable env s then send s status a else a)

  unfoldable pub usable_of : List Socket → List Socket
  usable_of [] = []
  usable_of (s ∷ ss) = let rest = usable_of ss in if usable env s then s ∷ rest else rest

  unfoldable pub others : List Socket → List Socket → List Socket
  others sent_to [] = []
  others sent_to (s ∷ ss) =
      let rest = others sent_to ss in if contains s sent_to then rest else s ∷ rest

  unfoldable pub provider_status : ProviderRegistry → JsonObject
  provider_status r =
      describe (active_provider_info r)
        (object (("type", str "ui.active") ∷ ("active", boolean (has_active_provider r)) ∷ []))

  unfoldable pub emit_provider_status : Agent → Agent
  unfolding send_to_all usable_of others provider_status
  emit_provider_status a =
      let status = provider_status a.registry in
      let told = usable_of (sockets a.registry) in
      send_to_all status (others told a.subscribers) (send_to_all status (sockets a.registry) a)

  -- recomputeActiveProvider, and emitProviderStatus if it reports a change.
  unfoldable pub refresh_providers : Agent → Agent
  refresh_providers a =
      let (changed, r) = recompute_active_provider env a.registry in
      let b = store_registry r a in if changed then emit_provider_status b else b

  -- The reason that the source passes is for its log only.
  unfoldable pub ensure_fallback_ui_running : Agent → Agent
  ensure_fallback_ui_running a =
      let path =
        if env.fallback_path == ""
        then env.append env.application_dir "/bb-auth-fallback"
        else env.fallback_path in
      if has_active_provider a.registry
      then a
      else if env.fallback_running
      then a
      else if ltb (env.now_ms - a.last_fallback_launch_ms) fallback_launch_cooldown_ms
      then a
      else if not (env.executable path)
      then a
      else if env.start_detached path
      then record a {
        last_fallback_launch_ms = env.now_ms;
        trace = launched path (socket_args a.socket_path) ∷ a.trace;
      }
      else a

  abbrev pub emit_update : Option JsonObject × Sessions → Agent → Agent
  emit_update (none, m) a = a
  emit_update (some event, m) a = emit_session_event event (record a { sessions = m })

  unfoldable pub create_session : String → Source → Context → Agent → Agent
  create_session id source ctx a =
      let (event, m) = SessionStore.create_session id source ctx a.sessions in
      let b = emit_session_event event (record a { sessions = m }) in
      if has_active_provider b.registry then b else ensure_fallback_ui_running b

  unfoldable pub update_session_prompt : String → String → Bool → Bool → Agent → Agent
  update_session_prompt id prompt echo clear_error a =
      emit_update (SessionStore.update_prompt id prompt echo clear_error a.sessions) a

  unfoldable pub update_session_error : String → String → Agent → Agent
  update_session_error id error a = emit_update (SessionStore.update_error id error a.sessions) a

  unfoldable pub update_session_info : String → String → Agent → Agent
  update_session_info id info a = emit_update (SessionStore.update_info id info a.sessions) a

  abbrev pub refresh_if_empty : Agent → Agent
  refresh_if_empty a = if SessionStore.empty a.sessions then refresh_providers a else a

  abbrev pub emit_closed : Option JsonObject × Sessions → Agent → Agent
  emit_closed (none, m) a = a
  emit_closed (some event, m) a =
      emit_session_event event (refresh_if_empty (record a { sessions = m }))

  -- closeSession. Every call in the program leaves `deferred` at its default, false.
  unfoldable pub close_session : String → Result → Agent → Agent
  close_session id result a = emit_closed (SessionStore.close_session id result a.sessions) a

  abbrev pub emit_completed : Option JsonObject × Sessions → Agent → Agent
  emit_completed (none, m) a = a
  emit_completed (some event, m) a =
      refresh_if_empty (emit_session_event event (record a { sessions = m }))

  -- onSessionComplete: as closeSession, with the event before the providers' status.
  unfoldable pub on_session_complete : String → Bool → Agent → Agent
  on_session_complete id ok a =
      let result = if ok then Result.success else Result.cancelled in
      emit_completed (SessionStore.close_session id result a.sessions) a

  unfoldable pub prune_stale_providers : Agent → Agent
  prune_stale_providers a =
      let b = refresh_providers a in
      if not (has_active_provider b.registry) && not (SessionStore.empty b.sessions)
      then ensure_fallback_ui_running b
      else b

unfoldable pub update_session_pinentry_retry : String → ℤ → ℤ → Agent → Agent
update_session_pinentry_retry id cur max a = record a {
  sessions = (SessionStore.update_pinentry_retry id cur max a.sessions).1;
}

unfoldable pub get_session : String → Agent → Option Session
get_session id a = SessionStore.get_session id a.sessions
