-- ===== src/PinentryManager/Flows.antt =====
-- The states of a flow and their invariant.
use noctalia_unofficial_auth.Base.{
  ◌≡◌, refl, inl, inr, String, true, false, ◌&&◌, ◌||◌, Option, none, some, ◌==◌, Bool-cases,
  comparable_string, arith,
}
use noctalia_unofficial_auth.Base.Int.{ℤ}
use noctalia_unofficial_auth.Base.Table.{
  lookup, insert, remove, contains, contains-insert, contains-remove,
}
use noctalia_unofficial_auth.Environment.{Env}
use noctalia_unofficial_auth.RequestTypes.{PinentryRequest, PinentryTables, AwaitingOutcome}
use noctalia_unofficial_auth.PinentryManager.{clear_flow, forget_info, resolve_retry_info}
use noctalia_unofficial_auth.PinentryManager.Frames.{opened, owned_by}

pub record FlowsOk (f : PinentryTables) : Type 0 where
  pub apart :
      (c : String) → (contains c f.pending_requests && contains c f.awaiting_outcome) ≡ false
  pub owned :
      (c : String)
      → (contains c f.pending_requests || contains c f.awaiting_outcome) ≡ true
      → contains c f.flow_owners ≡ true

-- Only the retry information tells the two tables apart.
pub resolve_retry_info-rest :
    (parsed : Option (ℤ × ℤ)) (q : PinentryRequest) (f : PinentryTables)
    → let g = (resolve_retry_info parsed q f).1 in
      (g.pending_requests ≡ f.pending_requests)
      × (g.awaiting_outcome ≡ f.awaiting_outcome)
      × (g.flow_owners ≡ f.flow_owners)
      × (g.flow_keyinfos ≡ f.flow_keyinfos)
      × (g.retry_reported ≡ f.retry_reported)
unfolding resolve_retry_info
resolve_retry_info-rest parsed q f = elim (Bool-cases (q.keyinfo == "")) [
  | inl e ↦ rw e (refl, refl, refl, refl, refl)
  | inr e ↦ rw e (refl, refl, refl, refl, refl)
]

forget_info-rest :
    (o : Option String) (f : PinentryTables)
    → let g = forget_info o f in
      (g.pending_requests ≡ f.pending_requests)
      × (g.awaiting_outcome ≡ f.awaiting_outcome)
      × (g.flow_owners ≡ f.flow_owners)
      × (g.flow_keyinfos ≡ f.flow_keyinfos)
      × (g.retry_reported ≡ f.retry_reported)
forget_info-rest none f = (refl, refl, refl, refl, refl)
forget_info-rest (some k) f = elim (Bool-cases (k == "")) [
  | inl e ↦ rw e (refl, refl, refl, refl, refl)
  | inr e ↦ rw e (refl, refl, refl, refl, refl)
]

pub opened-FlowsOk :
    (env : Env) (q : PinentryRequest) (cookie : String) (f : PinentryTables)
    → FlowsOk f
    → FlowsOk (opened env q cookie f)
opened-FlowsOk env q cookie f h =
    let g = owned_by env q cookie f in
    let r = resolve_retry_info-rest (env.match_attempts q.description) q g in
    record {
      apart = λ c.
          rw (contains-insert cookie c q _, contains-remove cookie c _, r.0, r.1)
            (ground (arith, h.apart c));
      owned = λ c.
          rw
            (
              contains-insert cookie c q _,
              contains-remove cookie c _,
              r.0,
              r.1,
              r.2,
              contains-insert cookie c q.peer_pid f.flow_owners,
            )
            (ground (arith, h.owned c));
    }

-- Closing a flow removes its cookie from five of the tables, and nothing else from them.
pub clear_flow-tables :
    (cookie : String) (f : PinentryTables)
    → let g = clear_flow cookie f in
      (g.pending_requests ≡ remove cookie f.pending_requests)
      × (g.awaiting_outcome ≡ remove cookie f.awaiting_outcome)
      × (g.flow_owners ≡ remove cookie f.flow_owners)
      × (g.flow_keyinfos ≡ remove cookie f.flow_keyinfos)
      × (g.retry_reported ≡ remove cookie f.retry_reported)
unfolding clear_flow
clear_flow-tables cookie f = forget_info-rest (lookup cookie f.flow_keyinfos) _

pub clear_flow-FlowsOk :
    (cookie : String) (f : PinentryTables) → FlowsOk f → FlowsOk (clear_flow cookie f)
clear_flow-FlowsOk cookie f h =
    let t = clear_flow-tables cookie f in
    record {
      apart = λ c.
          rw
            (
              t.0,
              t.1,
              contains-remove cookie c f.pending_requests,
              contains-remove cookie c f.awaiting_outcome,
            )
            (ground (arith, h.apart c));
      owned = λ c.
          rw
            (
              t.0,
              t.1,
              t.2,
              contains-remove cookie c f.pending_requests,
              contains-remove cookie c f.awaiting_outcome,
              contains-remove cookie c f.flow_owners,
            )
            (ground (arith, h.owned c));
    }

-- The tables once the user has answered a request.
abbrev pub submitted : AwaitingOutcome → String → PinentryTables → PinentryTables
submitted w cookie f = record f {
  pending_requests = remove cookie f.pending_requests;
  awaiting_outcome = insert cookie w (remove cookie f.awaiting_outcome);
}

pub submitted-FlowsOk :
    (w : AwaitingOutcome) (cookie : String) (f : PinentryTables)
    → contains cookie f.pending_requests ≡ true
    → FlowsOk f
    → FlowsOk (submitted w cookie f)
submitted-FlowsOk w cookie f p h = record {
  apart = λ c.
      rw
        (
          contains-insert cookie c w (remove cookie f.awaiting_outcome),
          contains-remove cookie c f.pending_requests,
          contains-remove cookie c f.awaiting_outcome,
        )
        (ground (arith, h.apart c));
  owned = λ c.
      rw
        (
          contains-insert cookie c w (remove cookie f.awaiting_outcome),
          contains-remove cookie c f.pending_requests,
          contains-remove cookie c f.awaiting_outcome,
        )
        (ground (arith, h.owned c, h.owned cookie, comparable_string.same_iff cookie c));
}

-- The tables once pinentry has reported a failed attempt.
abbrev pub reported : String → PinentryTables → PinentryTables
reported cookie f = record f {
  awaiting_outcome = remove cookie f.awaiting_outcome;
  retry_reported = insert cookie tt f.retry_reported;
}

pub reported-FlowsOk :
    (cookie : String) (f : PinentryTables) → FlowsOk f → FlowsOk (reported cookie f)
reported-FlowsOk cookie f h = record {
  apart = λ c. rw (contains-remove cookie c f.awaiting_outcome) (ground (arith, h.apart c));
  owned = λ c. rw (contains-remove cookie c f.awaiting_outcome) (ground (arith, h.owned c));
}
