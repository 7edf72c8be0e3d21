-- ===== src/EventRouter.antt =====
-- core/agent/EventRouter.hpp and EventRouter.cpp: who receives an event.
pub mod Routing
use Prim.Native.String.{String}
use text.Mathlib.Text.{starts_with}
use noctalia_unofficial_auth.Base.{
  ℕ, Bool, true, false, not, ◌&&◌, List, [], ◌∷◌, ◌==◌, if◌then◌else◌, comparable_nat,
}
use noctalia_unofficial_auth.EventQueue.{Socket, nullptr, EventQueue, enqueue, drain_to_waiters}
use noctalia_unofficial_auth.Environment.{Env}
use noctalia_unofficial_auth.Json.{JsonObject, value, to_string}
use noctalia_unofficial_auth.ProviderRegistry.{ProviderRegistry, has_active_provider}

-- isSessionEventForProviderRouting
unfoldable pub is_session_event : JsonObject → Bool
is_session_event event = starts_with (to_string (value "type" event)) "session."

-- socket && socket->isValid()
abbrev pub usable : Env → Socket → Bool
usable env s = not (s == nullptr) && env.valid s

module _ {ℓ} {S : Type ℓ} (env : Env) (send : Socket → JsonObject → S → S) where
  unfoldable pub broadcast : JsonObject → List Socket → S → S
  broadcast event [] a = a
  broadcast event (s ∷ subscribers) a =
      broadcast event subscribers (if usable env s then send s event a else a)

  -- The half of `route` before the queue: the active provider, or all subscribers.
  unfoldable pub deliver : ProviderRegistry → JsonObject → List Socket → S → S
  deliver r event subscribers a =
      if is_session_event event && has_active_provider r
      then if usable env r.active_provider then send r.active_provider event a else a
      else broadcast event subscribers a

  unfoldable pub route :
      ProviderRegistry → EventQueue → JsonObject → List Socket → S → EventQueue × S
  route r q event subscribers a =
      drain_to_waiters send (enqueue event q) (deliver r event subscribers a)
