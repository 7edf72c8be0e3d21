-- ===== src/Handlers/Messages.antt =====
-- The handlers of requests and of subscriptions, and the invariant.
use noctalia_unofficial_auth.Base.{
  ℕ, ◌≡◌, refl, String, Bool, true, false, ◌||◌, Option, none, some, List, [], ◌∷◌, ◌++◌, ◌==◌, inl,
  inr, if◌then◌else◌, comparable_string, comparable_nat, Bool-cases, arith,
}
use noctalia_unofficial_auth.Base.Int.{ℤ}
use noctalia_unofficial_auth.Base.Lists.{All, contains, append-Unique, drop, length-drop}
use noctalia_unofficial_auth.Json
use noctalia_unofficial_auth.Json.{
  JsonObject, contains-set, value, to_string, object, str, num, arr, obj, boolean, set,
}
use noctalia_unofficial_auth.Session.{to_created_event, to_updated_event}
use noctalia_unofficial_auth.Session.Events.{to_created_event-IsClean, to_updated_event-IsClean}
use noctalia_unofficial_auth.EventQueue
use noctalia_unofficial_auth.EventQueue.{Socket, EventQueue, nullptr, first_event, is_nil}
use noctalia_unofficial_auth.Environment.{Env}
use noctalia_unofficial_auth.ProviderRegistry
use noctalia_unofficial_auth.ProviderRegistry.{UiProvider, ProviderRegistry}
use noctalia_unofficial_auth.SessionStore.{Sessions}
use noctalia_unofficial_auth.Agent.{Agent, send}
use noctalia_unofficial_auth.Agent.Steps.{IsClean, QueueOk}
use noctalia_unofficial_auth.Agent.Emit.{drop-IsClean}
use noctalia_unofficial_auth.PinentryManager
use noctalia_unofficial_auth.PinentryManager.{ok_reply}
use noctalia_unofficial_auth.Handlers.{
  pong, subscribed, describe_active, handle_ping, handle_next, send_sessions, handle_subscribe,
  handle_keyring_request, handle_pinentry_request, handle_pinentry_result, get_peer_pid,
}
use noctalia_unofficial_auth.Handlers.Safety.{
  Quiet, Quiet-refl, Quiet-trans, Quiet-if, send-Quiet, queue-Quiet, subscribers-Quiet,
}
use noctalia_unofficial_auth.Handlers.Managers.{
  keyring_request-Quiet, pinentry_request-Quiet, pinentry_result-Quiet,
}

describe_active-IsClean :
    (o : Option UiProvider) (json : JsonObject) → IsClean json → IsClean (describe_active o json)
describe_active-IsClean none json c = c
describe_active-IsClean (some p) json c = simp contains-set c

IsClean-if : (t : Bool) (x y : JsonObject) → IsClean x → IsClean y → IsClean (if t then x else y)
IsClean-if true x y h k = h
IsClean-if false x y h k = k

set-IsClean :
    (k : String) (v : Json.Json) (json : JsonObject)
    → (k == "password") ≡ false
    → IsClean json
    → IsClean (set k v json)
set-IsClean k v json h c = simp (contains-set, h) c

drop-served :
    (es : List JsonObject) (ws : List Socket)
    → (is_nil es || is_nil ws) ≡ true
    → (is_nil (drop 1 es) || is_nil ws) ≡ true
drop-served [] ws h = refl
drop-served (e ∷ es) ws h = ground arith

first_event-IsClean : (es : List JsonObject) → All IsClean es → IsClean (first_event es)
first_event-IsClean [] h = refl
first_event-IsClean (e ∷ es) h = h.0

take_next-QueueOk : (q : EventQueue) → QueueOk q → QueueOk (EventQueue.take_next q).1
unfolding EventQueue.take_next
take_next-QueueOk q h = record {
  room = h.room;
  bounded = ground (arith, h.bounded, length-drop 1 q.events);
  clean = drop-IsClean 1 q.events h.clean;
  served = drop-served q.events q.next_waiters h.served;
}

subscribed-IsClean :
    (registered active : Bool) (count : ℕ) → IsClean (subscribed registered active count)
subscribed-IsClean true active count = refl
subscribed-IsClean false active count = refl

handle_result-IsClean :
    (env : Env) (msg : JsonObject) (pid : ℤ) (a : Agent)
    → IsClean (PinentryManager.handle_result env msg pid a).0
unfolding PinentryManager.handle_result PinentryManager.apply_result
handle_result-IsClean env msg pid a = ground arith

module _ (env : Env) where
  pub ping-Quiet : (s : Socket) (msg : JsonObject) (a : Agent) → Quiet a (handle_ping env s msg a)
  unfolding handle_ping
  ping-Quiet s msg a = send-Quiet env s _ a (
      describe_active-IsClean (ProviderRegistry.active_provider_info a.registry) _ (
        IsClean-if (Json.is_empty env.bootstrap) _ _ refl
          (set-IsClean "bootstrap" (obj env.bootstrap) pong refl refl)))

  subscribe_next-Quiet :
      (s : Socket) (a : Agent)
      → EventQueue.is_empty a.event_queue ≡ true
      → Quiet a (record a { event_queue = EventQueue.subscribe_next s a.event_queue })
  unfolding EventQueue.subscribe_next EventQueue.is_empty
  subscribe_next-Quiet s a e =
      queue-Quiet a _
        (λ h. record { room = h.room; bounded = h.bounded; clean = h.clean; served = rw e })

  take_next-Quiet :
      (s : Socket) (a : Agent)
      → Quiet a (
          send env s
            (EventQueue.take_next a.event_queue).0
            (record a { event_queue = (EventQueue.take_next a.event_queue).1 }))
  unfolding EventQueue.take_next
  take_next-Quiet s a h =
      Quiet-trans a (record a { event_queue = (EventQueue.take_next a.event_queue).1 }) _
        (queue-Quiet a _ (take_next-QueueOk a.event_queue))
        (send-Quiet env s _ _ (first_event-IsClean a.event_queue.events h.core.queue.clean)) h

  pub next-Quiet : (s : Socket) (msg : JsonObject) (a : Agent) → Quiet a (handle_next env s msg a)
  unfolding handle_next
  next-Quiet s msg a = elim (Bool-cases (EventQueue.is_empty a.event_queue)) [
    | inl e ↦ rw e (subscribe_next-Quiet s a e)
    | inr e ↦ rw e (take_next-Quiet s a)
  ]

  send_sessions-Quiet : (s : Socket) (m : Sessions) (a : Agent) → Quiet a (send_sessions env s m a)
  unfolding send_sessions
  send_sessions-Quiet s [] a = Quiet-refl a
  send_sessions-Quiet s ((id, x) ∷ m) a =
      let b = send env s (to_created_event x) a in
      let c = send env s (to_updated_event x) b in
      Quiet-trans a b _ (send-Quiet env s _ a (to_created_event-IsClean x)) (
        Quiet-trans b c _ (send-Quiet env s _ b (to_updated_event-IsClean x))
          (send_sessions-Quiet s m c))

  join-Quiet :
      (s : Socket) (a : Agent)
      → Quiet a (
          if contains s a.subscribers
          then a
          else record a { subscribers = a.subscribers ++ s ∷ [] })
  join-Quiet s a = elim (Bool-cases (contains s a.subscribers)) [
    | inl e ↦ rw e (Quiet-refl a)
    | inr e ↦ rw e (subscribers-Quiet a _ (append-Unique s a.subscribers e))
  ]

  pub subscribe-Quiet :
      (s : Socket) (msg : JsonObject) (a : Agent) → Quiet a (handle_subscribe env s msg a)
  unfolding handle_subscribe
  subscribe-Quiet s msg a =
      let b =
        if contains s a.subscribers
        then a
        else record a { subscribers = a.subscribers ++ s ∷ [] } in
      Quiet-trans a b _ (join-Quiet s a) (
        Quiet-trans b _ _
          (Quiet-if _ b (send_sessions env s b.sessions b) b (send_sessions-Quiet s b.sessions b)
            (Quiet-refl b))
          (send-Quiet env s _ _ (subscribed-IsClean _ _ _)))

  pub handle_keyring_request-Quiet :
      (s : Socket) (msg : JsonObject) (a : Agent) → Quiet a (handle_keyring_request env s msg a)
  unfolding handle_keyring_request
  handle_keyring_request-Quiet s msg a = keyring_request-Quiet env msg s (get_peer_pid env s) a

  pub handle_pinentry_request-Quiet :
      (s : Socket) (msg : JsonObject) (a : Agent) → Quiet a (handle_pinentry_request env s msg a)
  unfolding handle_pinentry_request
  handle_pinentry_request-Quiet s msg a = pinentry_request-Quiet env msg s (get_peer_pid env s) a

  pub handle_pinentry_result-Quiet :
      (s : Socket) (msg : JsonObject) (a : Agent) → Quiet a (handle_pinentry_result env s msg a)
  unfolding handle_pinentry_result
  handle_pinentry_result-Quiet s msg a =
      Quiet-trans a _ _ (pinentry_result-Quiet env msg (get_peer_pid env s) a)
        (send-Quiet env s _ _ (handle_result-IsClean env msg (get_peer_pid env s) a))
