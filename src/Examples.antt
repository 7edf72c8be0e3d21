-- ===== src/Examples.antt =====
-- Concrete surroundings, requests and states, on which the theorems are applied.
pub mod Parts
pub mod Flows
pub mod Whole
pub mod Ends
pub mod Clients
pub mod Pinentry
pub mod Prompts
use noctalia_unofficial_auth.Base.{ℕ, String, Bool, true, false, Option, none, some, List, [], ◌∷◌}
use noctalia_unofficial_auth.Base.Int.{ℤ, pos, negsuc}
use noctalia_unofficial_auth.Json.{JsonObject, str, empty, object}
use noctalia_unofficial_auth.Session.{Source, default_context, new_session}
use noctalia_unofficial_auth.Environment.{Env}
use noctalia_unofficial_auth.ProviderRegistry.{UiProvider, ProviderRegistry}
use noctalia_unofficial_auth.RequestTypes.{
  KeyringRequest, PinentryRequest, PinentryTables, no_flows, SessionState,
}
use noctalia_unofficial_auth.Agent.{Agent}
use noctalia_unofficial_auth.PolkitListener.{fresh_state}
use noctalia_unofficial_auth.Daemon.{
  Event, message, client_disconnected, provider_maintenance, new_agent,
}

-- At the given time, with every socket connected and no process to be read.
abbrev pub env_at : ℕ → Env
env_at t = record {
  now_ms = t;
  connected = λ s. true;
  valid = λ s. true;
  peer_cred = λ s. some (pos 4242);
  uuid = "5b0d";
  uid = pos 1000;
  read_proc = λ pid. none;
  desktop_index = [];
  to_lower = λ s. s;
  first_upper = λ s. s;
  file_name = λ s. s;
  base_name = λ s. s;
  append = λ s t. s;
  same_folded = λ s t. false;
  contains_folded = λ s t. false;
  to_long_long = λ s. none;
  match_attempts = λ s. none;
  cancel_completes = true;
  bootstrap = empty;
  fallback_running = false;
  fallback_path = "/usr/bin/bb-auth-fallback";
  application_dir = "/usr/bin";
  executable = λ path. true;
  start_detached = λ path. true;
}

abbrev pub shell : UiProvider
shell = record {
  id = "u1";
  name = "shell";
  kind = "quickshell";
  priority = pos 100;
  last_heartbeat_ms = 1000;
}

abbrev pub window : UiProvider
window = record {
  id = "u2";
  name = "window";
  kind = "fallback";
  priority = pos 10;
  last_heartbeat_ms = 900;
}

abbrev pub two_providers : ProviderRegistry
two_providers = record { ui_providers = (5, shell) ∷ (6, window) ∷ []; active_provider = 5 }

abbrev pub keyring_request : KeyringRequest
keyring_request = record {
  cookie = "k1";
  socket = 3;
  peer_pid = pos 4242;
  title = "Unlock";
  message = "login";
  choice = "";
  flags = pos 0;
}

abbrev pub pinentry_request : PinentryRequest
pinentry_request = record {
  cookie = "p1";
  socket = 4;
  peer_pid = pos 77;
  prompt = "PIN";
  description = "";
  error_text = "";
  keyinfo = "s/1234";
  repeat = false;
  confirm_only = false;
}

abbrev pub start : Agent
start = new_agent "/run/bb-auth.sock"

-- A keyring request waits, and two providers are registered.
abbrev pub keyring_waits : Agent
keyring_waits = record start {
  keyring_requests = ("k1", keyring_request) ∷ [];
  registry = two_providers;
}

-- A pinentry request waits, with its session.
abbrev pub pinentry_waits : Agent
pinentry_waits = record start {
  flows = record no_flows {
    pending_requests = ("p1", pinentry_request) ∷ [];
    flow_owners = ("p1", pos 77) ∷ [];
  };
  sessions = ("p1", new_session "p1" Source.pinentry default_context) ∷ [];
}

-- The third attempt of an authentication of polkit.
abbrev pub third_attempt : SessionState
third_attempt = record (fresh_state "org.test" "Authenticate" "" (λ k. "") "c1" "root") {
  session = 9;
  retry_count = 2;
}

abbrev pub polkit_waits : Agent
polkit_waits = record start {
  listener = record {
    cookie_to_state = ("c1", third_attempt) ∷ [];
    session_to_state = (9, "c1") ∷ [];
    next_handle = 10;
  };
}

abbrev pub respond : JsonObject
respond =
    object (("type", str "session.respond") ∷ ("id", str "k1") ∷ ("response", str "secret") ∷ [])

abbrev pub ask : JsonObject
ask = object (("type", str "keyring_request") ∷ ("cookie", str "k1") ∷ ("title", str "Unlock") ∷ [])

abbrev pub register : JsonObject
register = object (("type", str "ui.register") ∷ ("kind", str "quickshell") ∷ [])

-- A provider registers, a keyring asks, the provider answers, and both leave.
abbrev pub day : List (Env × Event)
day =
    (env_at 1000, message 5 "ui.register" register)
    ∷ (env_at 2000, message 3 "keyring_request" ask)
    ∷ (env_at 3000, message 5 "session.respond" respond)
    ∷ (env_at 4000, client_disconnected 3)
    ∷ (env_at 60000, provider_maintenance)
    ∷ []
