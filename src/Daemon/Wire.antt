-- ===== src/Daemon/Wire.antt =====
-- The daemon behind its server: the owner of the server that core/Agent.cpp sets up, and the bytes
-- of the clients as events.
use noctalia_unofficial_auth.Base.{String, true, refl, Option, some, List, [], ◌∷◌, arith}
use noctalia_unofficial_auth.Base.Table.{lookup}
use noctalia_unofficial_auth.Json.{JsonObject}
use noctalia_unofficial_auth.Environment.{Env}
use noctalia_unofficial_auth.IpcServer.{Bytes, Owner, Server, Signal, error_message, on_signal}
use noctalia_unofficial_auth.IpcServer.Bounds.{IsBounded, on_signal-IsBounded}
use noctalia_unofficial_auth.IpcServer.Keeps.{Keeps, on_signal-keeps}
use noctalia_unofficial_auth.Agent.{Agent, send}
use noctalia_unofficial_auth.Handlers.{handle_message, on_client_disconnected}
use noctalia_unofficial_auth.Handlers.Safety.{Inv, send-Quiet}
use noctalia_unofficial_auth.Handlers.Providers.{on_client_disconnected-Quiet}
use noctalia_unofficial_auth.Daemon.Dispatch.{handle_message-Guarded}
use noctalia_unofficial_auth.Daemon.Runs.{step-Inv, new_agent-Inv}
use noctalia_unofficial_auth.Daemon.{Event, new_agent, step}

-- A signal of the server, or an event that does not come from a client's bytes.
pub data WireEvent : Type 0 where
  of_server : Signal → WireEvent
  of_daemon : Event → WireEvent

-- The connections of CAgent::start to its server. Nothing is connected to clientConnected.
abbrev pub owner : Env → (Bytes → Option JsonObject) → Owner Agent
owner env from_json = record {
  from_json = from_json;
  send_json = send env;
  handler = some (handle_message env);
  client_connected = λ s a. a;
  client_disconnected = on_client_disconnected env;
}

abbrev pub new_server : String → Server Agent
new_server path = record { listening = true; buffers = []; leaving = []; state = new_agent path }

module _ (from_json : Bytes → Option JsonObject) where
  unfoldable pub wire_step : Env → WireEvent → Server Agent → Server Agent
  unfolding on_signal step
  wire_step env (of_server signal) server = on_signal (owner env from_json) signal server
  wire_step env (of_daemon event) server = record server { state = step env event server.state }

  unfoldable pub run_wire : List (Env × WireEvent) → Server Agent → Server Agent
  unfolding wire_step
  run_wire [] server = server
  run_wire ((env, event) ∷ events) server = run_wire events (wire_step env event server)

  owner-Keeps : (env : Env) → Keeps Inv (owner env from_json)
  owner-Keeps env = record {
    errors = λ s text a h. (send-Quiet env s (error_message text) a refl h).0;
    handled = λ s type msg a h. (handle_message-Guarded env s msg a type h).0;
    connects = λ s a h. h;
    disconnects = λ s a h. (on_client_disconnected-Quiet env s a h).0;
  }

  run_wire-Inv_from :
      (events : List (Env × WireEvent)) (server : Server Agent)
      → Inv server.state
      → IsBounded server
      → Inv (run_wire events server).state × IsBounded (run_wire events server)
  unfolding run_wire wire_step
  run_wire-Inv_from [] server h b = (h, b)
  run_wire-Inv_from ((env, of_server signal) ∷ events) server h b =
      run_wire-Inv_from events _
        (on_signal-keeps Inv (owner env from_json) (owner-Keeps env) signal server h)
        (on_signal-IsBounded (owner env from_json) signal server b)
  run_wire-Inv_from ((env, of_daemon event) ∷ events) server h b =
      run_wire-Inv_from events _ (step-Inv env event server.state h) b

  new_server-IsBounded : (path : String) → IsBounded (new_server path)
  unfolding lookup
  new_server-IsBounded path s b e = absurd (ground arith)

  -- Whatever bytes the clients send, in whatever chunks, whether or not they are JSON, and whatever
  -- the parser makes of them, the daemon satisfies its invariant after them and any other events,
  -- and of each socket the server keeps an unfinished line of at most 65536 bytes or has told the
  -- socket to disconnect.
  pub run_wire-Inv :
      (path : String) (events : List (Env × WireEvent))
      → Inv (run_wire events (new_server path)).state
        × IsBounded (run_wire events (new_server path))
  run_wire-Inv path events =
      run_wire-Inv_from events (new_server path) (new_agent-Inv path) (new_server-IsBounded path)
