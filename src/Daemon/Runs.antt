-- ===== src/Daemon/Runs.antt =====
-- What holds of the daemon after any sequence of events.
use mathlib.Core.Bool.{false≢true}
use noctalia_unofficial_auth.Base.{
  ◌⊎◌, refl, sym, ◌∙◌, String, List, [], ◌∷◌, inl, inr, subst, comparable_string, comparable_nat,
  arith, append-nil,
}
use noctalia_unofficial_auth.Base.Lists.{All, All-map}
use noctalia_unofficial_auth.Base.Table.{lookup}
use noctalia_unofficial_auth.Json.{JsonObject}
use noctalia_unofficial_auth.Session.{Result}
use noctalia_unofficial_auth.EventQueue.{Socket}
use noctalia_unofficial_auth.Environment.{Env}
use noctalia_unofficial_auth.ProviderRegistry
use noctalia_unofficial_auth.ProviderRegistry.{ProviderRegistry}
use noctalia_unofficial_auth.ProviderRegistry.Authority.{RegistryOk}
use noctalia_unofficial_auth.Agent.{Agent, Effect}
use noctalia_unofficial_auth.Agent.Steps.{IsQuiet, Said, Said-trans}
use noctalia_unofficial_auth.Agent.Operations.{prune_stale_providers-Step}
use noctalia_unofficial_auth.PinentryManager
use noctalia_unofficial_auth.Handlers.Safety.{
  Inv, Quiet, Quiet-refl, Quiet-if, Step-Quiet, registry-Quiet,
}
use noctalia_unofficial_auth.Handlers.Managers.{close_flow-Quiet}
use noctalia_unofficial_auth.Handlers.Providers.{on_client_disconnected-Quiet}
use noctalia_unofficial_auth.Handlers.Polkit.{
  initiate_authentication-Quiet, cancel_authentication-Quiet, on_session_request-Quiet,
  on_session_completed-Quiet, on_session_error-Quiet, on_session_info-Quiet,
}
use noctalia_unofficial_auth.Handlers.Secrets.{Released, Guarded}
use noctalia_unofficial_auth.Daemon.Dispatch.{handle_message-Guarded}
use noctalia_unofficial_auth.Daemon.{
  Event, message, client_disconnected, socket_destroyed, provider_maintenance, outcome_timeout,
  authentication_initiated, authentication_cancelled, session_request, session_completed,
  session_error, session_info, new_agent, step, run,
}

-- `e` released a response when one of the events was handled, of those that start at `a`.
pub data Origin (e : Effect) : List (Env × Event) → Agent → Type 0 where
  here :
      (env : Env) (s : Socket) (type : String) (msg : JsonObject) (es : List (Env × Event))
      (a : Agent)
      → Released s msg a e
      → Origin e ((env, message s type msg) ∷ es) a
  later :
      (env : Env) (event : Event) (es : List (Env × Event)) (a : Agent)
      → Origin e es (step env event a)
      → Origin e ((env, event) ∷ es) a

socket_deleted-RegistryOk :
    (s : Socket) (r : ProviderRegistry)
    → RegistryOk r
    → RegistryOk (ProviderRegistry.socket_deleted s r)
unfolding ProviderRegistry.socket_deleted
socket_deleted-RegistryOk s r h = record { distinct = h.distinct; known = ground (arith, h.known) }

timeout-Quiet :
    (env : Env) (cookie : String) (a : Agent) → Quiet a (PinentryManager.on_timeout env cookie a)
unfolding PinentryManager.on_timeout
timeout-Quiet env cookie a =
    close_flow-Quiet env cookie "Pinentry did not report terminal result" Result.error a

-- An event keeps the invariant, and what it does is quiet or releases a response.
abbrev Handled : Env → Event → List (Env × Event) → Agent → Agent → Type 0
Handled env event es a b =
    Inv a → Inv b × Said (λ e. IsQuiet e ⊎ Origin e ((env, event) ∷ es) a) a b

Quiet-Handled :
    (env : Env) (event : Event) (es : List (Env × Event)) (a b : Agent)
    → Quiet a b
    → Handled env event es a b
Quiet-Handled env event es a b q h =
    let (k, (new, e, all)) = q h in
    (
      k,
      (
        new,
        e,
        All-map IsQuiet (λ e. IsQuiet e ⊎ Origin e ((env, event) ∷ es) a) (λ e h. inl h) new all,
      ),
    )

Guarded-Handled :
    (env : Env) (s : Socket) (type : String) (msg : JsonObject) (es : List (Env × Event))
    (a b : Agent)
    → Guarded s msg a b
    → Handled env (message s type msg) es a b
Guarded-Handled env s type msg es a b g h =
    let (k, (new, e, all)) = g h in
    (
      k,
      (
        new,
        e,
        All-map (λ e. IsQuiet e ⊎ Released s msg a e)
            (λ e. IsQuiet e ⊎ Origin e ((env, message s type msg) ∷ es) a)
            (λ e h. elim h [ inl q ↦ inl q | inr r ↦ inr (here env s type msg es a r) ]) new all,
      ),
    )

step-Handled :
    (env : Env) (event : Event) (es : List (Env × Event)) (a : Agent)
    → Handled env event es a (step env event a)
unfolding step
step-Handled env (message s type msg) es a =
    Guarded-Handled env s type msg es a _ (handle_message-Guarded env s msg a type)
step-Handled env (client_disconnected s) es a =
    Quiet-Handled env _ es a _ (on_client_disconnected-Quiet env s a)
step-Handled env (socket_destroyed s) es a =
    Quiet-Handled env _ es a _ (registry-Quiet a _ (socket_deleted-RegistryOk s a.registry))
step-Handled env provider_maintenance es a =
    Quiet-Handled env _ es a _ (Step-Quiet a _ (prune_stale_providers-Step env a))
step-Handled env (outcome_timeout cookie) es a = Quiet-Handled env _ es a _ (
    Quiet-if (PinentryManager.is_awaiting_outcome cookie a) a _ a (timeout-Quiet env cookie a)
      (Quiet-refl a))
step-Handled env (authentication_initiated action text icon details cookie users) es a =
    Quiet-Handled env _ es a _
      (initiate_authentication-Quiet env action text icon details cookie users a)
step-Handled env authentication_cancelled es a =
    Quiet-Handled env _ es a _ (cancel_authentication-Quiet env a)
step-Handled env (session_request h text echo) es a =
    Quiet-Handled env _ es a _ (on_session_request-Quiet env h text echo a)
step-Handled env (session_completed h gained) es a =
    Quiet-Handled env _ es a _ (on_session_completed-Quiet env h gained a)
step-Handled env (session_error h text) es a =
    Quiet-Handled env _ es a _ (on_session_error-Quiet env h text a)
step-Handled env (session_info h text) es a =
    Quiet-Handled env _ es a _ (on_session_info-Quiet env h text a)

pub step-Inv : (env : Env) (event : Event) (a : Agent) → Inv a → Inv (step env event a)
step-Inv env event a h = (step-Handled env event [] a h).0

abbrev pub IsAccounted : List (Env × Event) → Agent → Effect → Type 0
IsAccounted es a e = IsQuiet e ⊎ Origin e es a

-- The invariant survives any events, and each effect of them is accounted for.
run-IsAccounted_from :
    (es : List (Env × Event)) (a : Agent)
    → Inv a
    → Inv (run es a) × Said (IsAccounted es a) a (run es a)
unfolding run
run-IsAccounted_from [] a h = (h, ([], refl, tt))
run-IsAccounted_from ((env, event) ∷ es) a h =
    let b = step env event a in
    let (k, said) = step-Handled env event es a h in
    let (l, (new, e, all)) = run-IsAccounted_from es b k in
    (
      l,
      Said-trans (IsAccounted ((env, event) ∷ es) a) a b (run es b) said (
        new,
        e,
        All-map (IsAccounted es b) (IsAccounted ((env, event) ∷ es) a)
            (λ e h. elim h [ inl q ↦ inl q | inr o ↦ inr (later env event es a o) ]) new all,
      ),
    )

pub new_agent-Inv : (path : String) → Inv (new_agent path)
unfolding lookup
new_agent-Inv path = record {
  core = record {
    queue = record { room = omega arith; bounded = omega arith; clean = tt; served = refl };
    registry = record { distinct = tt; known = refl };
  };
  flows = record { apart = λ c. refl; owned = λ c h. absurd (false≢true h) };
  subscribers = tt;
}

-- After any sequence of events from its start, the daemon satisfies its invariant: its event queue
-- holds at most its capacity of events, none with a password field, and is empty while a socket waits for an
-- event; no socket is registered twice, and the active provider is registered or there is none; no
-- cookie both waits for input and for an outcome, and each that does has an owner; no socket is
-- subscribed twice.
pub run-Inv : (path : String) (es : List (Env × Event)) → Inv (run es (new_agent path))
run-Inv path es = (run-IsAccounted_from es (new_agent path) (new_agent-Inv path)).0

-- Whatever the events since its start, everything that the daemon has sent has no password field,
-- or handed the response of a message, from a socket that might answer then, to the socket of the
-- request that was pending under the cookie of the message.
pub run-IsAccounted :
    (path : String) (es : List (Env × Event))
    → All (IsAccounted es (new_agent path)) (run es (new_agent path)).trace
run-IsAccounted path es =
    let (new, e, all) = (run-IsAccounted_from es (new_agent path) (new_agent-Inv path)).1 in
    subst (All (IsAccounted es (new_agent path))) (sym (e ∙ append-nil new)) all
