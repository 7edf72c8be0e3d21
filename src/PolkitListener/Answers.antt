-- ===== src/PolkitListener/Answers.antt =====
-- The answer to polkit when an authentication ends.
use noctalia_unofficial_auth.Base.{
  ◌+◌, ◌≡◌, refl, sym, ◌∙◌, ap, Bool, true, false, not, ◌&&◌, List, [], ◌∷◌, ◌++◌, append_assoc,
  ◌==◌, ltb, if◌then◌else◌, comparable_string, comparable_nat, arith, Bool-cases, inl, inr,
}
use noctalia_unofficial_auth.Environment.{Env}
use noctalia_unofficial_auth.RequestTypes.{SessionState, Handle}
use noctalia_unofficial_auth.Agent
use noctalia_unofficial_auth.Agent.{Agent, Effect, emit, result_completed, auth_deleted, completed}
use noctalia_unofficial_auth.Agent.Steps.{CoreOk}
use noctalia_unofficial_auth.Agent.Operations.{on_session_complete-Step, update_session_error-Step}
use noctalia_unofficial_auth.PolkitListener.{
  drop_auth_session, conclude, finish_auth, on_session_retry, store_state, max_auth_retries,
}

-- The daemon has done `e`, and other things before and after.
abbrev pub Did : Effect → Agent → Type 0
Did e a = (after before : List Effect) × (a.trace ≡ after ++ e ∷ before)

Did-more :
    (e : Effect) (a b : Agent) (new : List Effect) → b.trace ≡ new ++ a.trace → Did e a → Did e b
Did-more e a b new p (after, before, q) =
    (new ++ after, before, p ∙ ap (◌++◌ new) q ∙ sym (append_assoc new after (e ∷ before)))

drop_auth_session-more :
    (h : Handle) (a : Agent)
    → CoreOk a
    → CoreOk (drop_auth_session h a)
      × ((new : List Effect) × ((drop_auth_session h a).trace ≡ new ++ a.trace))
drop_auth_session-more h a core = elim (Bool-cases (h == 0)) [
  | inl e ↦ rw e (core, ([], refl))
  | inr e ↦
      rw e (record { queue = core.queue; registry = core.registry }, (auth_deleted h ∷ [], refl))
]

module _ (env : Env) where
  conclude-Did :
      (st : SessionState) (a : Agent)
      → CoreOk a
      → Did (result_completed st.cookie) (conclude env st a)
  unfolding conclude
  conclude-Did st a core =
      let b =
        emit (result_completed st.cookie) (store_state (record st { in_progress = false }) a) in
      let (core_c, (dropped, p)) =
        drop_auth_session-more st.session b
          (record { queue = core.queue; registry = core.registry }) in
      let c = drop_auth_session st.session b in
      let (new, q, all) = (on_session_complete-Step env st.cookie st.gained_auth c core_c).said in
      let d = Agent.on_session_complete env st.cookie st.gained_auth c in
      let told : Did (result_completed st.cookie) d =
        Did-more _ c d new q (Did-more _ b c dropped p ([], a.trace, refl)) in
      Did-more _ d (conclude env st a) (completed st.gained_auth ∷ []) refl told

  Did-branch :
      (e : Effect) (t : Bool) (b c : Agent) → t ≡ false → Did e c → Did e (if t then b else c)
  Did-branch e t b c h k = rw h k

  -- When an attempt in progress is over and no other follows, since the user was authorized, or
  -- cancelled, or failed for the third time, polkit is told that its request is completed.
  pub finish_auth_completes :
      (st : SessionState) (a : Agent)
      → CoreOk a
      → st.in_progress ≡ true
      → ((not st.gained_auth && not st.cancelled) && ltb (st.retry_count + 1) max_auth_retries)
        ≡ false
      → Did (result_completed st.cookie) (finish_auth env st a)
  unfolding finish_auth
  finish_auth_completes st a core on over =
      elim (Bool-cases (not st.gained_auth && not st.cancelled)) [
        | inr e ↦ rw (on, e) (conclude-Did st a core)
        | inl e ↦
            let counted = record st { retry_count = st.retry_count + 1 } in
            let failed = record counted { error_text = "Too many failed attempts" } in
            let b = on_session_retry env st.cookie failed.error_text a in
            let core_b = (update_session_error-Step env st.cookie failed.error_text a core).core in
            rw (on, e)
              (Did-branch _ (ltb (st.retry_count + 1) max_auth_retries) _ (conclude env failed b)
                (ground (arith, over, e)) (conclude-Did failed b core_b))
      ]
