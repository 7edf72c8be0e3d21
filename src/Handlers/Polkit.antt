-- ===== src/Handlers/Polkit.antt =====
-- The operations of the listener and the invariant.
use noctalia_unofficial_auth.Base.{
  String, Bool, true, false, not, ◌&&◌, List, [], ◌∷◌, ◌==◌, ltb, ◌+◌, inl, inr, comparable_string,
  comparable_nat, Option-cases, map,
}
use noctalia_unofficial_auth.Base.Table.{lookup, contains}
use noctalia_unofficial_auth.Session.{Source}
use noctalia_unofficial_auth.Environment.{Env}
use noctalia_unofficial_auth.RequestTypes.{SessionState, PolkitTables, Handle}
use noctalia_unofficial_auth.Agent
use noctalia_unofficial_auth.Agent.{
  Agent, Effect, emit, result_error, result_completed, auth_created, auth_deleted, auth_initiated,
  auth_response, auth_cancelled, used_after_free, completed,
}
use noctalia_unofficial_auth.Agent.Steps.{IsQuiet}
use noctalia_unofficial_auth.Agent.Operations.{
  create_session-Step, update_session_error-Step, update_session_prompt-Step,
  update_session_info-Step, on_session_complete-Step,
}
use noctalia_unofficial_auth.PolkitListener.{
  fresh_state, find_state_for_session, new_auth_session, reattempt, drop_auth_session,
  on_polkit_request, initiate_authentication, conclude, finish_auth, on_session_request,
  on_session_completed, on_session_error, on_session_info, cancel_all, cancel_authentication,
  finish_cancelled, cancel_pending, submit_password, max_auth_retries,
}
use noctalia_unofficial_auth.Handlers.Safety.{
  Quiet, Quiet-refl, Quiet-trans, Quiet-if, Step-Quiet, listener-Quiet, effect-Quiet,
}

-- A change of the listener's tables, then an effect that sends nothing.
tables_then-Quiet :
    (e : Effect) (l : PolkitTables) (a : Agent)
    → IsQuiet e
    → Quiet a (emit e (record a { listener = l }))
tables_then-Quiet e l a q =
    Quiet-trans a (record a { listener = l }) _ (listener-Quiet a l)
      (effect-Quiet (record a { listener = l }) e q)

new_auth_session-Quiet : (st : SessionState) (a : Agent) → Quiet a (new_auth_session st a).1
unfolding new_auth_session
new_auth_session-Quiet st a = tables_then-Quiet _ _ a tt

reattempt-Quiet : (st : SessionState) (a : Agent) → Quiet a (reattempt st a)
unfolding reattempt
reattempt-Quiet st a = tables_then-Quiet _ _ a tt

drop_auth_session-Quiet : (h : Handle) (a : Agent) → Quiet a (drop_auth_session h a)
drop_auth_session-Quiet h a = Quiet-if (h == 0) a a _ (Quiet-refl a) (tables_then-Quiet _ _ a tt)

two_effects-Quiet : (e f : Effect) (a : Agent) → IsQuiet e → IsQuiet f → Quiet a (emit f (emit e a))
two_effects-Quiet e f a q r =
    Quiet-trans a (emit e a) _ (effect-Quiet a e q) (effect-Quiet (emit e a) f r)

pub submit_password-Quiet : (c pass : String) (a : Agent) → Quiet a (submit_password c pass a)
unfolding submit_password
submit_password-Quiet c pass a = elim (Option-cases (lookup c a.listener.cookie_to_state)) [
  | inl e ↦ rw (e, submit_password) (Quiet-refl a)
  | inr (st, e) ↦
      rw (e, submit_password)
        (Quiet-if (st.session == 0) a a _ (Quiet-refl a)
          (effect-Quiet a (auth_response st.session pass) tt))
]

module _ (env : Env) where
  on_polkit_request-Quiet :
      (c message action user : String) (details : String → String) (a : Agent)
      → Quiet a (on_polkit_request env c message action user details a)
  unfolding on_polkit_request
  on_polkit_request-Quiet c message action user details a =
      Step-Quiet a _ (create_session-Step env c Source.polkit _ a)

  pub initiate_authentication-Quiet :
      (action message icon : String) (details : String → String) (c : String) (users : List String)
      (a : Agent)
      → Quiet a (initiate_authentication env action message icon details c users a)
  unfolding initiate_authentication
  initiate_authentication-Quiet action message icon details c [] a =
      Quiet-if (contains c a.listener.cookie_to_state) a _ _ (two_effects-Quiet _ _ a tt tt)
        (two_effects-Quiet _ _ a tt tt)
  initiate_authentication-Quiet action message icon details c (user ∷ users) a =
      Quiet-if (contains c a.listener.cookie_to_state) a _ _ (two_effects-Quiet _ _ a tt tt) (
        Quiet-trans a _ _
          (new_auth_session-Quiet (fresh_state action message icon details c user) a)
          (Quiet-trans _ _ _ (listener-Quiet _ _) (
            Quiet-trans _ _ _ (on_polkit_request-Quiet c message action user details _) (
              reattempt-Quiet
                (new_auth_session (fresh_state action message icon details c user) a).0 _))))

  conclude-Quiet : (st : SessionState) (a : Agent) → Quiet a (conclude env st a)
  unfolding conclude
  conclude-Quiet st a = Quiet-trans a _ _ (tables_then-Quiet _ _ a tt) (
      Quiet-trans _ _ _ (drop_auth_session-Quiet st.session _) (
        Quiet-trans _ _ _ (Step-Quiet _ _ (on_session_complete-Step env st.cookie st.gained_auth _))
          (Quiet-trans _ _ _ (effect-Quiet _ (completed st.gained_auth) tt) (listener-Quiet _ _))))

  retry-Quiet : (c error : String) (a : Agent) → Quiet a (Agent.update_session_error env c error a)
  retry-Quiet c error a = Step-Quiet a _ (update_session_error-Step env c error a)

  finish_auth-Quiet : (st : SessionState) (a : Agent) → Quiet a (finish_auth env st a)
  unfolding finish_auth
  finish_auth-Quiet st a =
      let counted = record st { retry_count = st.retry_count + 1 } in
      let failed = record counted { error_text = "Too many failed attempts" } in
      let dropped = drop_auth_session st.session a in
      Quiet-if (not st.in_progress) a a _ (Quiet-refl a) (
        Quiet-if (not st.gained_auth && not st.cancelled) a _ _
          (Quiet-if (ltb (st.retry_count + 1) max_auth_retries) a _ _
            (Quiet-trans a _ _ (drop_auth_session-Quiet st.session a) (
              Quiet-trans _ _ _ (new_auth_session-Quiet counted dropped)
                (reattempt-Quiet (new_auth_session counted dropped).0 _)))
            (Quiet-trans a _ _ (retry-Quiet st.cookie "Too many failed attempts" a)
              (conclude-Quiet failed _)))
          (conclude-Quiet st a))

  pub on_session_request-Quiet :
      (h : Handle) (text : String) (echo : Bool) (a : Agent)
      → Quiet a (on_session_request env h text echo a)
  unfolding on_session_request
  on_session_request-Quiet h text echo a = elim (Option-cases (find_state_for_session h a)) [
    | inl e ↦ rw (e, on_session_request) (Quiet-refl a)
    | inr (st, e) ↦
        rw (e, on_session_request)
          (Quiet-trans a _ _ (listener-Quiet a _)
            (Step-Quiet _ _ (update_session_prompt-Step env st.cookie text echo true _)))
  ]

  pub on_session_completed-Quiet :
      (h : Handle) (gained : Bool) (a : Agent) → Quiet a (on_session_completed env h gained a)
  unfolding on_session_completed
  on_session_completed-Quiet h gained a = elim (Option-cases (find_state_for_session h a)) [
    | inl e ↦ rw (e, on_session_completed) (Quiet-refl a)
    | inr (st, e) ↦
        rw (e, on_session_completed)
          (Quiet-if gained a _ _ (finish_auth-Quiet (record st { gained_auth = true }) a) (
            Quiet-trans a _ _ (retry-Quiet st.cookie "Authentication failed" a) (
              finish_auth-Quiet
                (record st { gained_auth = false; error_text = "Authentication failed" }) _)))
  ]

  pub on_session_error-Quiet :
      (h : Handle) (text : String) (a : Agent) → Quiet a (on_session_error env h text a)
  unfolding on_session_error
  on_session_error-Quiet h text a = elim (Option-cases (find_state_for_session h a)) [
    | inl e ↦ rw (e, on_session_error) (Quiet-refl a)
    | inr (st, e) ↦
        rw (e, on_session_error)
          (Quiet-trans a _ _ (listener-Quiet a _) (retry-Quiet st.cookie text _))
  ]

  pub on_session_info-Quiet :
      (h : Handle) (text : String) (a : Agent) → Quiet a (on_session_info env h text a)
  unfolding on_session_info
  on_session_info-Quiet h text a = elim (Option-cases (find_state_for_session h a)) [
    | inl e ↦ rw (e, on_session_info) (Quiet-refl a)
    | inr (st, e) ↦
        rw (e, on_session_info) (Step-Quiet a _ (update_session_info-Step env st.cookie text a))
  ]

  finish_cancelled-Quiet : (c : String) (a : Agent) → Quiet a (finish_cancelled env c a)
  unfolding finish_cancelled
  finish_cancelled-Quiet c a = elim (Option-cases (lookup c a.listener.cookie_to_state)) [
    | inl e ↦ rw (e, finish_cancelled) (effect-Quiet a (used_after_free c) tt)
    | inr (st, e) ↦ rw (e, finish_cancelled) (finish_auth-Quiet (record st { cancelled = true }) a)
  ]

  cancel_all-Quiet : (cs : List String) (a : Agent) → Quiet a (cancel_all env cs a)
  unfolding cancel_all
  cancel_all-Quiet [] a = Quiet-refl a
  cancel_all-Quiet (c ∷ cs) a =
      Quiet-trans a (finish_cancelled env c a) _ (finish_cancelled-Quiet c a)
        (cancel_all-Quiet cs _)

  pub cancel_authentication-Quiet : (a : Agent) → Quiet a (cancel_authentication env a)
  unfolding cancel_authentication
  cancel_authentication-Quiet a =
      cancel_all-Quiet (map (λ entry. entry.0) a.listener.cookie_to_state) a

  pub cancel_pending-Quiet : (c : String) (a : Agent) → Quiet a (cancel_pending env c a)
  unfolding cancel_pending
  cancel_pending-Quiet c a = elim (Option-cases (lookup c a.listener.cookie_to_state)) [
    | inl e ↦ rw (e, cancel_pending) (Quiet-refl a)
    | inr (st, e) ↦
        rw (e, cancel_pending)
          (Quiet-if (st.session == 0) a a _ (Quiet-refl a) (
            Quiet-trans a _ _ (effect-Quiet a (auth_cancelled st.session) tt) (
              Quiet-trans _ _ _
                (Quiet-if env.cancel_completes _ _ _ (on_session_completed-Quiet st.session false _)
                  (Quiet-refl _))
                (finish_cancelled-Quiet c _))))
  ]
