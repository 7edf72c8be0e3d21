-- ===== src/Handlers.antt =====
-- The message half of core/Agent.cpp: the handlers of the constructor and of handleMessage, with
-- core/agent/MessageRouter.hpp and MessageRouter.cpp.
pub mod Answers
pub mod Safety
pub mod Managers
pub mod Polkit
pub mod Messages
pub mod Providers
pub mod Secrets
pub mod Cancel
use noctalia_unofficial_auth.Base.{
  ℕ, String, Bool, true, false, not, ◌&&◌, ◌||◌, Option, none, some, List, [], ◌∷◌, ◌++◌, ◌==◌,
  if◌then◌else◌, comparable_nat, comparable_string,
}
use noctalia_unofficial_auth.Base.Int.{ℤ, pos, negsuc}
use noctalia_unofficial_auth.Base.Lists.{contains, remove_one}
use noctalia_unofficial_auth.Base.Table.{Table, lookup}
use noctalia_unofficial_auth.Json
use noctalia_unofficial_auth.Json.{
  JsonObject, boolean, num, str, arr, obj, object, texts, set, value, to_string,
}
use noctalia_unofficial_auth.Session.{Session, is_polkit, to_created_event, to_updated_event}
use noctalia_unofficial_auth.EventQueue
use noctalia_unofficial_auth.EventQueue.{Socket, nullptr}
use noctalia_unofficial_auth.Environment.{Env}
use noctalia_unofficial_auth.ProviderRegistry
use noctalia_unofficial_auth.ProviderRegistry.{UiProvider, ProviderRegistry}
use noctalia_unofficial_auth.SessionStore
use noctalia_unofficial_auth.SessionStore.{Sessions}
use noctalia_unofficial_auth.Agent
use noctalia_unofficial_auth.Agent.{Agent, send, send_json}
use noctalia_unofficial_auth.KeyringManager
use noctalia_unofficial_auth.KeyringManager.{error_reply}
use noctalia_unofficial_auth.PinentryManager
use noctalia_unofficial_auth.PinentryManager.{ok_reply}
use noctalia_unofficial_auth.PolkitListener.{submit_password, cancel_pending}
unfoldable pub use noctalia_unofficial_auth.Handlers.Answers.{
  respond_keyring, or_invalid, respond_pinentry, respond_session, handle_respond, cancel_keyring,
  cancel_pinentry, cancel_session, handle_cancel,
}

-- MessageRouter::dispatch
unfoldable pub dispatch {ℓ} :
    {S : Type ℓ}
    → Table String (Socket → JsonObject → S → S)
    → Socket
    → String
    → JsonObject
    → S
    → Bool × S
dispatch handlers s type msg a = elim (lookup type handlers) [
  | none ↦ (false, a)
  | some handler ↦ (true, handler s msg a)
]

abbrev pub set_registry : ProviderRegistry → Agent → Agent
set_registry r a = record a { registry = r }

-- The answer to a ping before it names the bootstrap's state and the active provider.
abbrev pub pong : JsonObject
pong = object (
    ("type", str "pong")
    ∷ ("version", str "2.0")
    ∷ (
      "capabilities",
      arr (texts ("polkit" ∷ "keyring" ∷ "pinentry" ∷ "fingerprint" ∷ "fido2" ∷ [])),
    )
    ∷ [])

-- The answer to a subscription; `active` is told to a registered provider only.
abbrev pub subscribed : Bool → Bool → ℕ → JsonObject
subscribed registered active count =
    let base = object (("type", str "subscribed") ∷ ("sessionCount", num (pos count)) ∷ []) in
    if registered then set "active" (boolean active) base else base

abbrev pub describe_active : Option UiProvider → JsonObject → JsonObject
describe_active none json = json
describe_active (some p) json =
    set "provider"
      (obj (
        object (
          ("id", str p.id)
          ∷ ("name", str p.name)
          ∷ ("kind", str p.kind)
          ∷ ("priority", num p.priority)
          ∷ [])))
      json

module _ (env : Env) where
  -- IpcServer::getPeerPid
  unfoldable pub get_peer_pid : Socket → ℤ
  get_peer_pid s =
      if s == nullptr then negsuc 0 else elim (env.peer_cred s) [ none ↦ negsuc 0 | some pid ↦ pid ]

  unfoldable pub handle_ping : Socket → JsonObject → Agent → Agent
  handle_ping s msg a =
      let booted =
        if Json.is_empty env.bootstrap then pong else set "bootstrap" (obj env.bootstrap) pong in
      send env s (describe_active (ProviderRegistry.active_provider_info a.registry) booted) a

  unfoldable pub handle_next : Socket → JsonObject → Agent → Agent
  handle_next s msg a =
      if EventQueue.is_empty a.event_queue
      then record a { event_queue = EventQueue.subscribe_next s a.event_queue }
      else let (event, q) = EventQueue.take_next a.event_queue in
        send env s event (record a { event_queue = q })

  -- The replay of the open sessions to a new subscriber.
  unfoldable pub send_sessions : Socket → Sessions → Agent → Agent
  send_sessions s [] a = a
  send_sessions s ((id, session) ∷ rest) a =
      send_sessions s rest
        (send env s (to_updated_event session) (send env s (to_created_event session) a))

  unfoldable pub handle_subscribe : Socket → JsonObject → Agent → Agent
  unfolding send_sessions
  handle_subscribe s msg a =
      let b =
        if contains s a.subscribers
        then a
        else record a { subscribers = a.subscribers ++ s ∷ [] } in
      let registered = ProviderRegistry.is_registered s b.registry in
      let active = registered && s == b.registry.active_provider in
      let interactive = not registered || active in
      let c = if interactive then send_sessions s b.sessions b else b in
      let count = if interactive then SessionStore.size c.sessions else 0 in
      send env s (subscribed registered active count) c

  unfoldable pub handle_keyring_request : Socket → JsonObject → Agent → Agent
  unfolding get_peer_pid
  handle_keyring_request s msg = KeyringManager.handle_request env msg s (get_peer_pid s)

  unfoldable pub handle_pinentry_request : Socket → JsonObject → Agent → Agent
  unfolding get_peer_pid
  handle_pinentry_request s msg = PinentryManager.handle_request env msg s (get_peer_pid s)

  unfoldable pub handle_pinentry_result : Socket → JsonObject → Agent → Agent
  unfolding get_peer_pid
  handle_pinentry_result s msg a =
      let (result, b) = PinentryManager.handle_result env msg (get_peer_pid s) a in
      send env s result b

  unfoldable pub handle_ui_register : Socket → JsonObject → Agent → Agent
  handle_ui_register s msg a =
      let (p, r) = ProviderRegistry.register_provider env s msg a.registry in
      let (changed, r') = ProviderRegistry.recompute_active_provider env r in
      let now_active = s == r'.active_provider in
      let b =
        send env s
          (object (
            ("type", str "ui.registered")
            ∷ ("id", str p.id)
            ∷ ("active", boolean now_active)
            ∷ ("priority", num p.priority)
            ∷ []))
          (set_registry r' a) in
      if changed || now_active then Agent.emit_provider_status env b else b

  unfoldable pub handle_ui_heartbeat : Socket → JsonObject → Agent → Agent
  handle_ui_heartbeat s msg a =
      let (known, r) = ProviderRegistry.heartbeat env s a.registry in
      let b = Agent.refresh_providers env (set_registry r a) in
      if not known
      then send env s (error_reply "Provider not registered") a
      else send env s
          (object (("type", str "ok") ∷ ("active", boolean (s == b.registry.active_provider)) ∷ []))
          b

  -- if (!hasActiveProvider() && !m_sessionStore.empty()) ensureFallbackUiRunning(…);
  unfoldable pub ensure_ui : Agent → Agent
  ensure_ui a =
      if not (ProviderRegistry.has_active_provider a.registry)
        && not (SessionStore.empty a.sessions)
      then Agent.ensure_fallback_ui_running env a
      else a

  unfoldable pub handle_ui_unregister : Socket → JsonObject → Agent → Agent
  unfolding ensure_ui
  handle_ui_unregister s msg a =
      let (known, r) = ProviderRegistry.unregister_provider s a.registry in
      let b = Agent.refresh_providers env (set_registry r a) in
      if not known
      then send env s (error_reply "Provider not registered") a
      else ensure_ui (send env s ok_reply b)

  -- The calls of registerHandler in the constructor.
  unfoldable pub handlers : Table String (Socket → JsonObject → Agent → Agent)
  handlers =
      ("ping", handle_ping)
      ∷ ("subscribe", handle_subscribe)
      ∷ ("next", handle_next)
      ∷ ("keyring_request", handle_keyring_request)
      ∷ ("pinentry_request", handle_pinentry_request)
      ∷ ("pinentry_result", handle_pinentry_result)
      ∷ ("ui.register", handle_ui_register)
      ∷ ("ui.heartbeat", handle_ui_heartbeat)
      ∷ ("ui.unregister", handle_ui_unregister)
      ∷ ("session.respond", handle_respond env)
      ∷ ("session.cancel", handle_cancel env)
      ∷ []

  unfoldable pub handle_message : Socket → String → JsonObject → Agent → Agent
  unfolding handlers dispatch
  handle_message s type msg a =
      let (handled, b) = dispatch handlers s type msg a in
      if handled then b else send env s (error_reply "Unknown type") b

  unfoldable pub on_client_disconnected : Socket → Agent → Agent
  unfolding ensure_ui
  on_client_disconnected s a =
      let b = record a { subscribers = remove_one s a.subscribers } in
      let (known, r) = ProviderRegistry.remove_socket s b.registry in
      let c = if known then Agent.refresh_providers env (set_registry r b) else b in
      let d = record c { event_queue = EventQueue.remove_waiter s c.event_queue } in
      ensure_ui
        (PinentryManager.cleanup_for_socket env s (KeyringManager.cleanup_for_socket env s d))
