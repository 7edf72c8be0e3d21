-- ===== src/EventRouter/Routing.antt =====
-- Exactly who receives an event.
use noctalia_unofficial_auth.Base.{
  ◌≡◌, leb, refl, not, sym, ◌∙◌, ap, Bool, true, false, ◌&&◌, ◌||◌, List, [], ◌∷◌, ◌==◌,
  if◌then◌else◌, comparable_nat, arith, Bool-cases, eq_of_==, inl, inr,
}
use noctalia_unofficial_auth.Base.Lists.{contains, drop}
use noctalia_unofficial_auth.EventQueue.{
  Socket, nullptr, EventQueue, is_nil, enqueue, drain, drain_to_waiters,
}
use noctalia_unofficial_auth.Environment.{Env}
use noctalia_unofficial_auth.Json.{JsonObject, value, to_string}
use noctalia_unofficial_auth.Base.Table
use text.Mathlib.Text.{starts_with}
use mathlib.Core.Bool.{false≢true}
use noctalia_unofficial_auth.ProviderRegistry.{ProviderRegistry, has_active_provider}
use noctalia_unofficial_auth.EventRouter.{is_session_event, usable, broadcast, deliver, route}

-- A `send` that notes who was sent an event that passes a test.
abbrev pub note : (JsonObject → Bool) → Socket → JsonObject → List Socket → List Socket
note test s event told = if test event then s ∷ told else told

spread :
    (same told others up : Bool)
    → (same ≡ true → up ≡ true)
    → ((same || told) || (others && up)) ≡ (told || ((same || others) && up))
spread same told others up h = ground (arith, h)

spread_unusable :
    (same told others up : Bool)
    → (same ≡ true → up ≡ false)
    → (told || (others && up)) ≡ (told || ((same || others) && up))
spread_unusable same told others up h = ground (arith, h)

-- Who gets the event before the waiters do.
abbrev pub is_addressed : Env → ProviderRegistry → JsonObject → List Socket → Socket → Bool
is_addressed env r event subscribers t =
    not (t == nullptr)
    && env.valid t
    && (if starts_with (to_string (value "type" event)) "session."
          && not (r.active_provider == nullptr)
          && Table.contains r.active_provider r.ui_providers
        then t == r.active_provider
        else contains t subscribers)

-- The waiter whose turn it is.
abbrev pub is_first : Socket → List Socket → Bool
is_first t [] = false
is_first t (w ∷ ws) = w == t

module _ (env : Env) (test : JsonObject → Bool) where
  contains-broadcast :
      (event : JsonObject) (t : Socket) (subscribers told : List Socket)
      → test event ≡ true
      → contains t (broadcast env (note test) event subscribers told)
        ≡ (contains t told || (contains t subscribers && usable env t))
  unfolding broadcast contains
  contains-broadcast event t [] told seen = ground arith
  contains-broadcast event t (s ∷ ss) told seen = elim (Bool-cases (usable env s)) [
    | inl e ↦
        rw (e, seen)
          (contains-broadcast event t ss (s ∷ told) seen
            ∙ spread (s == t) (contains t told) (contains t ss) (usable env t)
                (λ h. ap (usable env) (sym (eq_of_== s t h)) ∙ e))
    | inr e ↦ rw e (
        contains-broadcast event t ss told seen
        ∙ spread_unusable (s == t) (contains t told) (contains t ss) (usable env t)
            (λ h. ap (usable env) (sym (eq_of_== s t h)) ∙ e))
  ]

  contains-deliver :
      (r : ProviderRegistry) (event : JsonObject) (subscribers : List Socket) (t : Socket)
      → test event ≡ true
      → contains t (deliver env (note test) r event subscribers [])
        ≡ is_addressed env r event subscribers t
  unfolding deliver contains is_session_event has_active_provider
  contains-deliver r event subscribers t seen = ground (
    arith,
    contains-broadcast event t subscribers [] seen,
    comparable_nat.same_iff r.active_provider t,
    comparable_nat.same_iff t r.active_provider,
  )

  nothing_dropped : (full : Bool) → (if full then drop {A = JsonObject} 1 [] else []) ≡ []
  nothing_dropped true = refl
  nothing_dropped false = refl

  -- A queue that holds an event has no waiter: that event goes to the first waiter.
  contains-drain :
      (event : JsonObject) (q : EventQueue) (told : List Socket) (t : Socket)
      → (is_nil q.events || is_nil q.next_waiters) ≡ true
      → test event ≡ true
      → contains t (drain_to_waiters (note test) (enqueue event q) told).1
        ≡ (is_first t q.next_waiters || contains t told)
  unfolding drain_to_waiters drain enqueue contains
  contains-drain event q told t served seen = cases q.events q.next_waiters refl refl
    where
      cases :
          (es : List JsonObject) (ws : List Socket)
          → q.events ≡ es
          → q.next_waiters ≡ ws
          → contains t (drain_to_waiters (note test) (enqueue event q) told).1
            ≡ (is_first t q.next_waiters || contains t told)
      cases es [] e f = rw f refl
      cases [] (w ∷ []) e f = rw (e, f, nothing_dropped (leb q.max_size 0), seen) refl
      cases [] (w ∷ (v ∷ ws)) e f = rw (e, f, nothing_dropped (leb q.max_size 0), seen) refl
      cases (x ∷ es) (w ∷ ws) e f = absurd (false≢true (rw (e, f) at served))

  -- Who is sent an event, where an event and a waiter do not both wait: the first waiter, and of those
  -- whose sockets can be written to, while a provider is active and the type of the event begins with
  -- `session.`, the provider alone, and otherwise exactly the subscribers. It is this event that each
  -- of them is sent: the test that tells it from others is any.
  pub contains-route :
      (r : ProviderRegistry) (q : EventQueue) (event : JsonObject) (subscribers : List Socket)
      (t : Socket)
      → (is_nil q.events || is_nil q.next_waiters) ≡ true
      → test event ≡ true
      → contains t (route env (note test) r q event subscribers []).1
        ≡ (is_first t q.next_waiters || is_addressed env r event subscribers t)
  unfolding route
  contains-route r q event subscribers t served seen =
      contains-drain event q (deliver env (note test) r event subscribers []) t served seen
      ∙ ap (λ b. is_first t q.next_waiters || b) (contains-deliver r event subscribers t seen)
