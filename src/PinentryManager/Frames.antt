-- ===== src/PinentryManager/Frames.antt =====
-- How the operations of the manager change its tables.
use noctalia_unofficial_auth.Base.{
  ◌≡◌, refl, sym, ap, ◌∙◌, String, Bool, true, false, not, ◌&&◌, [], ◌==◌, if◌then◌else◌, inl, inr,
  Bool-cases, is_some, comparable_string, arith, subst,
}
use noctalia_unofficial_auth.Base.Table.{insert, remove, contains, remove-missing}
use noctalia_unofficial_auth.Session.{Source, Result}
use noctalia_unofficial_auth.Environment.{Env}
use noctalia_unofficial_auth.RequestContext.{resolve_actor_for_pid}
use noctalia_unofficial_auth.RequestTypes.{PinentryRequest, PinentryTables}
use noctalia_unofficial_auth.Agent
use noctalia_unofficial_auth.Agent.{Agent}
use noctalia_unofficial_auth.Agent.Steps.{
  IsQuiet, CoreOk, Step, Step-refl, Step-trans, Step-if, Said, Said-trans,
}
use noctalia_unofficial_auth.Agent.Operations.{
  create_session-Step, update_session_error-Step, update_session_prompt-Step, close_session-Step,
  update_session_pinentry_retry-Step,
}
use noctalia_unofficial_auth.ProviderRegistry.{or_else}
use noctalia_unofficial_auth.PinentryManager.{
  set_flows, request_context, resolve_retry_info, cleanup_awaiting, clear_flow, close_flow,
  open_flow, is_awaiting_outcome, session_is_pinentry,
}

-- As `Step`, but the tables of pinentry may become `f`.
pub record Moves (f : PinentryTables) (a b : Agent) : Type 0 where
  pub keyring : b.keyring_requests ≡ a.keyring_requests
  pub flows : b.flows ≡ f
  pub listener : b.listener ≡ a.listener
  pub subscribers : b.subscribers ≡ a.subscribers
  pub core : CoreOk b
  pub said : Said IsQuiet a b

pub set_flows-core : (f : PinentryTables) (a : Agent) → CoreOk a → CoreOk (set_flows f a)
set_flows-core f a h = record { queue = h.queue; registry = h.registry }

pub Moves-here : (f : PinentryTables) (a : Agent) → CoreOk a → Moves f a (set_flows f a)
Moves-here f a h = record {
  keyring = refl;
  flows = refl;
  listener = refl;
  subscribers = refl;
  core = set_flows-core f a h;
  said = ([], refl, tt);
}

pub Moves-Step : (f : PinentryTables) (a b c : Agent) → Moves f a b → Step b c → Moves f a c
Moves-Step f a b c m s =
    let t = s m.core in
    record {
      keyring = t.keyring ∙ m.keyring;
      flows = t.flows ∙ m.flows;
      listener = t.listener ∙ m.listener;
      subscribers = t.subscribers ∙ m.subscribers;
      core = t.core;
      said = Said-trans IsQuiet a b c m.said t.said;
    }

pub Moves-set : (f g : PinentryTables) (a b : Agent) → Moves f a b → Moves g a (set_flows g b)
Moves-set f g a b m = record {
  keyring = m.keyring;
  flows = refl;
  listener = m.listener;
  subscribers = m.subscribers;
  core = set_flows-core g b m.core;
  said = m.said;
}

pub Moves-trans : (f g : PinentryTables) (a b c : Agent) → Moves f a b → Moves g b c → Moves g a c
Moves-trans f g a b c m n = record {
  keyring = n.keyring ∙ m.keyring;
  flows = n.flows;
  listener = n.listener ∙ m.listener;
  subscribers = n.subscribers ∙ m.subscribers;
  core = n.core;
  said = Said-trans IsQuiet a b c m.said n.said;
}

pub Moves-if :
    (t : Bool) (f : PinentryTables) (a b c : Agent)
    → Moves f a b
    → Moves f a c
    → Moves f a (if t then b else c)
Moves-if true f a b c m n = m
Moves-if false f a b c m n = n

pub Step-Moves : (a b : Agent) → CoreOk a → Step a b → Moves a.flows a b
Step-Moves a b h s = Moves-Step a.flows a a b (Moves-here a.flows a h) s

module _ (env : Env) where
  pub close_flow-Moves :
      (cookie : String) (r : Result) (error : String) (a : Agent)
      → CoreOk a
      → Moves (clear_flow cookie a.flows) a (close_flow env cookie r error a)
  unfolding close_flow
  close_flow-Moves cookie r error a h =
      let told = if error == "" then a else Agent.update_session_error env cookie error a in
      let closed =
        if session_is_pinentry (Agent.get_session cookie a)
        then Agent.close_session env cookie r told
        else a in
      let step : Step a closed =
        Step-if (session_is_pinentry (Agent.get_session cookie a)) a _ a
          (Step-trans a told _
            (Step-if (error == "") a a _ (Step-refl a)
              (update_session_error-Step env cookie error a))
            (close_session-Step env cookie r told))
          (Step-refl a) in
      let m = Step-Moves a closed h step in
      subst (λ f. Moves (clear_flow cookie f) a (close_flow env cookie r error a)) m.flows
        (Moves-set a.flows (clear_flow cookie closed.flows) a closed m)

  -- The tables once a request has been taken.
  abbrev pub owned_by : PinentryRequest → String → PinentryTables → PinentryTables
  owned_by q cookie f = record f {
    flow_owners = insert cookie q.peer_pid f.flow_owners;
    flow_keyinfos =
        if q.keyinfo == "" then f.flow_keyinfos else insert cookie q.keyinfo f.flow_keyinfos;
  }

  abbrev pub opened : PinentryRequest → String → PinentryTables → PinentryTables
  opened q cookie f =
      let g = (resolve_retry_info (env.match_attempts q.description) q (owned_by q cookie f)).1 in
      record g {
        pending_requests = insert cookie q g.pending_requests;
        awaiting_outcome = remove cookie g.awaiting_outcome;
        retry_reported = remove cookie g.retry_reported;
      }

  abbrev without_awaiting : String → PinentryTables → PinentryTables
  without_awaiting cookie f = record f { awaiting_outcome = remove cookie f.awaiting_outcome }

  no_awaiting :
      (cookie : String) (f : PinentryTables)
      → contains cookie f.awaiting_outcome ≡ false
      → without_awaiting cookie f ≡ f
  no_awaiting cookie f h =
      ap (λ t. record f { awaiting_outcome = t })
        (remove-missing cookie f.awaiting_outcome (ground arith))

  -- The first half of a request: an awaited outcome of the same cookie counts as a failure.
  abbrev retried : String → String → Agent → Agent
  retried cookie error b =
      if is_awaiting_outcome cookie b
      then Agent.update_session_error env cookie error (cleanup_awaiting cookie b)
      else b

  retried-Moves :
      (cookie error : String) (b : Agent)
      → CoreOk b
      → Moves (without_awaiting cookie b.flows) b (retried cookie error b)
  unfolding cleanup_awaiting is_awaiting_outcome
  retried-Moves cookie error b h = elim (Bool-cases (is_awaiting_outcome cookie b)) [
    | inl e ↦ rw e (
        Moves-Step (without_awaiting cookie b.flows) b (cleanup_awaiting cookie b) _
          (Moves-here (without_awaiting cookie b.flows) b h)
          (update_session_error-Step env cookie error (cleanup_awaiting cookie b)))
    | inr e ↦ rw e (
        subst (λ f. Moves f b b) (sym (no_awaiting cookie b.flows e))
          (Step-Moves b b h (Step-refl b)))
  ]

  abbrev pended : PinentryRequest → String → PinentryTables → PinentryTables
  pended q cookie f = record f { pending_requests = insert cookie q f.pending_requests }

  abbrev unreported : String → PinentryTables → PinentryTables
  unreported cookie f = record f { retry_reported = remove cookie f.retry_reported }

  -- A change of the tables that depends on nothing else.
  Moves-map :
      (k : PinentryTables → PinentryTables) (f : PinentryTables) (a b : Agent)
      → Moves f a b
      → Moves (k f) a (set_flows (k b.flows) b)
  Moves-map k f a b m =
      subst (λ g. Moves (k g) a (set_flows (k b.flows) b)) m.flows (Moves-set f (k b.flows) a b m)

  pub open_flow-Moves :
      (q : PinentryRequest) (cookie : String) (a : Agent)
      → CoreOk a
      → Moves (opened q cookie a.flows) a (open_flow env q cookie a)
  unfolding open_flow
  open_flow-Moves q cookie a h =
      let r = resolve_retry_info (env.match_attempts q.description) q (owned_by q cookie a.flows) in
      let f1 = r.1 in
      let b = set_flows f1 a in
      let c = retried cookie (or_else q.error_text "Authentication failed") b in
      let f2 = without_awaiting cookie f1 in
      let to_c : Moves f2 a c = Moves-trans f1 f2 a b c (Moves-here f1 a h) (
        retried-Moves cookie (or_else q.error_text "Authentication failed") b
          (set_flows-core f1 a h)) in
      let d = set_flows (pended q cookie c.flows) c in
      let f3 = pended q cookie f2 in
      let to_d : Moves f3 a d = Moves-map (pended q cookie) f2 a c to_c in
      let known = is_some (Agent.get_session cookie a) in
      let e =
        if known
        then Agent.update_session_pinentry_retry cookie r.0.0 r.0.1 d
        else Agent.create_session env cookie Source.pinentry
            (request_context q r.0.0 r.0.1 (resolve_actor_for_pid env q.peer_pid)) d in
      let to_e : Moves f3 a e = Moves-Step f3 a d e to_d (
        Step-if known d _ _ (update_session_pinentry_retry-Step cookie r.0.0 r.0.1 d) (
          create_session-Step env cookie Source.pinentry
            (request_context q r.0.0 r.0.1 (resolve_actor_for_pid env q.peer_pid)) d)) in
      let p = Agent.update_session_prompt env cookie q.prompt false false e in
      let to_p : Moves f3 a p =
        Moves-Step f3 a e p to_e (update_session_prompt-Step env cookie q.prompt false false e) in
      let g = set_flows (unreported cookie p.flows) p in
      let to_g : Moves (unreported cookie f3) a g = Moves-map (unreported cookie) f3 a p to_p in
      Moves-if (not (q.error_text == "") && not (contains cookie p.flows.retry_reported))
        (unreported cookie f3) a _ g
        (Moves-Step (unreported cookie f3) a g _ to_g
          (update_session_error-Step env cookie q.error_text g))
        to_g
