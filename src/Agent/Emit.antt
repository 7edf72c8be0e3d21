-- ===== src/Agent/Emit.antt =====
-- emitSessionEvent and emitProviderStatus.
use noctalia_unofficial_auth.Base.{
  ℕ, zero, suc, Option, none, some, leb, ◌≡◌, refl, sym, ap, ◌∙◌, Bool, true, false, not, ◌||◌,
  ◌&&◌, List, [], ◌∷◌, ◌++◌, append_assoc, arith, ◌==◌, comparable_nat, if◌then◌else◌, inl, inr,
  Bool-cases,
}
use noctalia_unofficial_auth.Base.Lists.{length, drop, All, All-append, length-drop}
use noctalia_unofficial_auth.Json.{JsonObject, contains-set, object, str, boolean}
use noctalia_unofficial_auth.EventQueue.{Socket, EventQueue, enqueue}
use noctalia_unofficial_auth.EventQueue.Bounds.{enqueue_bounded, max_size-enqueue}
use noctalia_unofficial_auth.EventQueue.Drain.{pairs, send_all, drain_to_waiters-pairs, drop_either}
use noctalia_unofficial_auth.Environment.{Env}
use noctalia_unofficial_auth.EventRouter.{broadcast, deliver, route, usable, is_session_event}
use noctalia_unofficial_auth.ProviderRegistry.{
  ProviderRegistry, UiProvider, has_active_provider, active_provider_info, sockets,
}
use noctalia_unofficial_auth.Agent.{
  Agent, Effect, sent, send_json, send, emit_session_event, send_to_all, emit_provider_status,
  describe, provider_status, usable_of, others,
}
use noctalia_unofficial_auth.Agent.Steps.{IsClean, IsQuiet, QueueOk, Step}

-- `b` is `a` after quiet effects.
abbrev pub Outputs : Agent → Agent → Type 0
Outputs a b = (new : List Effect) × (b ≡ record a { trace = new ++ a.trace }) × All IsQuiet new

pub Outputs-refl : (a : Agent) → Outputs a a
Outputs-refl a = ([], refl, tt)

pub Outputs-trans : (a b c : Agent) → Outputs a b → Outputs b c → Outputs a c
Outputs-trans a b c (xs, p, h) (ys, q, k) = (
  ys ++ xs,
  q
      ∙ ap (λ (x : Agent). record x { trace = ys ++ x.trace }) p
      ∙ ap (λ (l : List Effect). record a { trace = l }) (sym (append_assoc ys xs a.trace)),
  All-append IsQuiet ys xs k h,
)

pub Outputs-if :
    (t : Bool) (a b c : Agent) → Outputs a b → Outputs a c → Outputs a (if t then b else c)
Outputs-if true a b c h k = h
Outputs-if false a b c h k = k

-- The parts of the state that an output leaves as they were.
module _ (a b : Agent) (h : Outputs a b) where
  pub Outputs-registry : b.registry ≡ a.registry
  Outputs-registry = ap (λ (x : Agent). x.registry) h.1

  pub Outputs-event_queue : b.event_queue ≡ a.event_queue
  Outputs-event_queue = ap (λ (x : Agent). x.event_queue) h.1

  pub Outputs-sessions : b.sessions ≡ a.sessions
  Outputs-sessions = ap (λ (x : Agent). x.sessions) h.1

  pub Outputs-Step : Step a b
  Outputs-Step k = record {
    keyring = ap (λ (x : Agent). x.keyring_requests) h.1;
    flows = ap (λ (x : Agent). x.flows) h.1;
    listener = ap (λ (x : Agent). x.listener) h.1;
    subscribers = ap (λ (x : Agent). x.subscribers) h.1;
    core = record {
      queue = rw Outputs-event_queue k.queue;
      registry = rw Outputs-registry k.registry;
    };
    said = (h.0, ap (λ (x : Agent). x.trace) h.1, h.2);
  }

module _ (env : Env) where
  pub send_json-Outputs :
      (s : Socket) (json : JsonObject) (wipe : Bool) (a : Agent)
      → IsClean json
      → Outputs a (send_json env s json wipe a)
  unfolding send_json
  send_json-Outputs s json wipe a c =
      Outputs-if (s == 0 || not (env.connected s)) a a _ (Outputs-refl a)
        (sent s json wipe ∷ [], refl, (c, tt))

  send_if-Outputs :
      (t : Bool) (s : Socket) (json : JsonObject) (a b : Agent)
      → IsClean json
      → Outputs a b
      → Outputs a (if t then send env s json b else b)
  send_if-Outputs t s json a b c h =
      Outputs-if t a _ b (Outputs-trans a b _ h (send_json-Outputs s json false b c)) h

  broadcast-Outputs :
      (event : JsonObject) (ss : List Socket) (a b : Agent)
      → IsClean event
      → Outputs a b
      → Outputs a (broadcast env (send env) event ss b)
  unfolding broadcast
  broadcast-Outputs event [] a b c h = h
  broadcast-Outputs event (s ∷ ss) a b c h =
      broadcast-Outputs event ss a _ c (send_if-Outputs (usable env s) s event a b c h)

  send_to_all-Outputs :
      (status : JsonObject) (ss : List Socket) (a b : Agent)
      → IsClean status
      → Outputs a b
      → Outputs a (send_to_all env status ss b)
  unfolding send_to_all
  send_to_all-Outputs status [] a b c h = h
  send_to_all-Outputs status (s ∷ ss) a b c h =
      send_to_all-Outputs status ss a _ c (send_if-Outputs (usable env s) s status a b c h)

  deliver-Outputs :
      (r : ProviderRegistry) (event : JsonObject) (ss : List Socket) (a : Agent)
      → IsClean event
      → Outputs a (deliver env (send env) r event ss a)
  unfolding deliver
  deliver-Outputs r event ss a c =
      Outputs-if (is_session_event event && has_active_provider r) a _ _
        (send_if-Outputs (usable env r.active_provider) r.active_provider event a a c
          (Outputs-refl a))
        (broadcast-Outputs event ss a a c (Outputs-refl a))

  send_all-Outputs :
      (l : List (Socket × JsonObject)) (a b : Agent)
      → All (λ (p : Socket × JsonObject). IsClean p.1) l
      → Outputs a b
      → Outputs a (send_all (send env) l b)
  send_all-Outputs [] a b c h = h
  send_all-Outputs ((s, e) ∷ l) a b c h =
      send_all-Outputs l a _ c.1 (Outputs-trans a b _ h (send_json-Outputs s e false b c.0))

pairs-IsClean :
    (ws : List Socket) (es : List JsonObject)
    → All IsClean es
    → All (λ (p : Socket × JsonObject). IsClean p.1) (pairs ws es)
pairs-IsClean [] es c = tt
pairs-IsClean (w ∷ ws) [] c = tt
pairs-IsClean (w ∷ ws) (e ∷ es) c = (c.0, pairs-IsClean ws es c.1)

pub drop-IsClean : (n : ℕ) (es : List JsonObject) → All IsClean es → All IsClean (drop n es)
drop-IsClean zero es c = c
drop-IsClean (suc n) [] c = tt
drop-IsClean (suc n) (e ∷ es) c = drop-IsClean n es c.1

enqueue-IsClean :
    (e : JsonObject) (q : EventQueue)
    → IsClean e
    → All IsClean q.events
    → All IsClean (enqueue e q).events
unfolding enqueue
enqueue-IsClean e q c h = elim (Bool-cases (leb q.max_size (length q.events))) [
  | inl full ↦
      rw full (All-append IsClean (drop 1 q.events) (e ∷ []) (drop-IsClean 1 q.events h) (c, tt))
  | inr spare ↦ rw spare (All-append IsClean q.events (e ∷ []) h (c, tt))
]

-- What is left of a queue once an event has been added and the waiters were served.
abbrev after_drain : EventQueue → EventQueue
after_drain q = record q {
  events = drop (length q.next_waiters) q.events;
  next_waiters = drop (length q.events) q.next_waiters;
}

after_drain-QueueOk :
    (e : JsonObject) (q : EventQueue) → IsClean e → QueueOk q → QueueOk (after_drain (enqueue e q))
after_drain-QueueOk e q c h = record {
  room = rw (max_size-enqueue e q) h.room;
  bounded = omega (
    arith,
    max_size-enqueue e q,
    enqueue_bounded e q h.room h.bounded,
    length-drop (length (enqueue e q).next_waiters) (enqueue e q).events,
  );
  clean = drop-IsClean _ (enqueue e q).events (enqueue-IsClean e q c h.clean);
  served = drop_either (enqueue e q).next_waiters (enqueue e q).events;
}

module _ (env : Env) where
  -- The daemon once an event has gone out, before its queue is stored.
  abbrev after_sends : JsonObject → Agent → Agent
  after_sends event a =
      let q = enqueue event a.event_queue in
      send_all (send env) (pairs q.next_waiters q.events)
        (deliver env (send env) a.registry event a.subscribers a)

  emit_session_event_lem :
      (event : JsonObject) (a : Agent)
      → emit_session_event env event a
        ≡ record (after_sends event a) { event_queue = after_drain (enqueue event a.event_queue) }
  unfolding emit_session_event route
  emit_session_event_lem event a =
      ap (λ (p : EventQueue × Agent). record p.1 { event_queue = p.0 })
        (drain_to_waiters-pairs (send env) (enqueue event a.event_queue)
          (deliver env (send env) a.registry event a.subscribers a)).0

  after_sends-Outputs :
      (event : JsonObject) (a : Agent)
      → IsClean event
      → QueueOk a.event_queue
      → Outputs a (after_sends event a)
  after_sends-Outputs event a c h =
      let q = enqueue event a.event_queue in
      send_all-Outputs env (pairs q.next_waiters q.events) a _
        (pairs-IsClean q.next_waiters q.events (enqueue-IsClean event a.event_queue c h.clean))
        (deliver-Outputs env a.registry event a.subscribers a c)

  -- An event with no password field goes out, joins the queue and reaches the waiters; nothing
  -- else changes.
  pub emit_session_event-Step :
      (event : JsonObject) (a : Agent) → IsClean event → Step a (emit_session_event env event a)
  emit_session_event-Step event a c k = rw (emit_session_event_lem event a) (
      let f = Outputs-Step a (after_sends event a) (after_sends-Outputs event a c k.queue) k in
      record {
        keyring = f.keyring;
        flows = f.flows;
        listener = f.listener;
        subscribers = f.subscribers;
        core = record {
          queue = after_drain-QueueOk event a.event_queue c k.queue;
          registry = f.core.registry;
        };
        said = f.said;
      })

  -- The sessions and the providers are not touched by an event.
  pub emit_session_event-rest :
      (event : JsonObject) (a : Agent)
      → IsClean event
      → QueueOk a.event_queue
      → ((emit_session_event env event a).sessions ≡ a.sessions)
        × ((emit_session_event env event a).registry ≡ a.registry)
  emit_session_event-rest event a c k = rw (emit_session_event_lem event a) (
    Outputs-sessions a _ (after_sends-Outputs event a c k),
    Outputs-registry a _ (after_sends-Outputs event a c k),
  )

  describe-IsClean :
      (o : Option UiProvider) (json : JsonObject) → IsClean json → IsClean (describe o json)
  describe-IsClean none json c = c
  describe-IsClean (some p) json c = simp contains-set c

  provider_status-IsClean : (r : ProviderRegistry) → IsClean (provider_status env r)
  unfolding provider_status
  provider_status-IsClean r =
      describe-IsClean (active_provider_info r)
        (object (("type", str "ui.active") ∷ ("active", boolean (has_active_provider r)) ∷ [])) refl

  pub emit_provider_status-Outputs : (a : Agent) → Outputs a (emit_provider_status env a)
  unfolding emit_provider_status
  emit_provider_status-Outputs a =
      let status = provider_status env a.registry in
      let told = usable_of env (sockets a.registry) in
      let clean = provider_status-IsClean a.registry in
      send_to_all-Outputs env status (others env told a.subscribers) a _ clean
        (send_to_all-Outputs env status (sockets a.registry) a a clean (Outputs-refl a))
