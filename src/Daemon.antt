-- ===== src/Daemon.antt =====
-- The daemon of core/Agent.cpp from its start: the events that Qt's loop delivers, and what a
-- sequence of them does.
pub mod Dispatch
pub mod Runs
pub mod Wire
use noctalia_unofficial_auth.Base.{ℕ, String, Bool, true, false, List, [], ◌∷◌, if◌then◌else◌}
use noctalia_unofficial_auth.Base.Int.{pos}
use noctalia_unofficial_auth.Json.{JsonObject}
use noctalia_unofficial_auth.EventQueue.{Socket, nullptr, new_queue}
use noctalia_unofficial_auth.Environment.{Env}
use noctalia_unofficial_auth.ProviderRegistry
use noctalia_unofficial_auth.RequestTypes.{Handle, no_flows}
use noctalia_unofficial_auth.Agent
use noctalia_unofficial_auth.Agent.{Agent}
use noctalia_unofficial_auth.PinentryManager
use noctalia_unofficial_auth.PolkitListener.{
  initiate_authentication, cancel_authentication, on_session_request, on_session_completed,
  on_session_error, on_session_info,
}
use noctalia_unofficial_auth.Handlers.{set_registry, handle_message, on_client_disconnected}

-- A message of a client, the end of a connection and of its socket, the timers, the calls of
-- polkit, and the signals of its sessions.
pub data Event : Type 0 where
  message : Socket → String → JsonObject → Event
  client_disconnected : Socket → Event
  socket_destroyed : Socket → Event
  provider_maintenance : Event
  outcome_timeout : String → Event
  authentication_initiated :
      String → String → String → (String → String) → String → List String → Event
  authentication_cancelled : Event
  session_request : Handle → String → Bool → Event
  session_completed : Handle → Bool → Event
  session_error : Handle → String → Event
  session_info : Handle → String → Event

-- A CAgent after its constructor and `start`.
abbrev pub new_agent : String → Agent
new_agent path = record {
  keyring_requests = [];
  flows = no_flows;
  listener = record { cookie_to_state = []; session_to_state = []; next_handle = 1 };
  registry = record { ui_providers = []; active_provider = nullptr };
  event_queue = new_queue 256;
  sessions = [];
  subscribers = [];
  socket_path = path;
  last_fallback_launch_ms = 0;
  trace = [];
}

-- The connections that the constructor, `start` and the managers make. The timer of an awaited
-- outcome is deleted with its entry, so it fires for an entry that is there.
unfoldable pub step : Env → Event → Agent → Agent
step env (message s type msg) a = handle_message env s type msg a
step env (client_disconnected s) a = on_client_disconnected env s a
step env (socket_destroyed s) a = set_registry (ProviderRegistry.socket_deleted s a.registry) a
step env provider_maintenance a = Agent.prune_stale_providers env a
step env (outcome_timeout cookie) a =
    if PinentryManager.is_awaiting_outcome cookie a
    then PinentryManager.on_timeout env cookie a
    else a
step env (authentication_initiated action text icon details cookie users) a =
    initiate_authentication env action text icon details cookie users a
step env authentication_cancelled a = cancel_authentication env a
step env (session_request h text echo) a = on_session_request env h text echo a
step env (session_completed h gained) a = on_session_completed env h gained a
step env (session_error h text) a = on_session_error env h text a
step env (session_info h text) a = on_session_info env h text a

-- Events in their order, each with the surroundings at its time.
unfoldable pub run : List (Env × Event) → Agent → Agent
unfolding step
run [] a = a
run ((env, e) ∷ es) a = run es (step env e a)
