-- ===== src/PolkitListener/Attempts.antt =====
-- How an authentication of polkit goes on and ends.
use mathlib.Core.Bool.{true≢false}
use noctalia_unofficial_auth.Base.{
  is_some, ◌+◌, ◌≡◌, ◌≢◌, refl, ◌∙◌, ap, String, Bool, true, false, not, ◌&&◌, Option, none, some,
  ◌==◌, ltb, if◌then◌else◌, comparable_string, comparable_nat, arith, ==-refl,
}
use noctalia_unofficial_auth.Base.Table.{lookup, contains, contains-remove, contains-insert}
use noctalia_unofficial_auth.Environment.{Env}
use noctalia_unofficial_auth.RequestTypes.{SessionState}
use noctalia_unofficial_auth.Agent.{Agent, emit, used_after_free, auth_cancelled}
use noctalia_unofficial_auth.PolkitListener.{
  find_state_for_session, new_auth_session, reattempt, drop_auth_session, conclude, finish_auth,
  finish_cancelled, cancel_pending, on_session_completed, on_session_retry, max_auth_retries,
}

if-true : (t : Bool) (a b : Agent) → t ≡ true → (if t then a else b) ≡ a
if-true t a b h = rw h refl

none_of_missing {ℓ} : {A : Type ℓ} (o : Option A) → is_some o ≡ false → o ≡ none
none_of_missing none h = refl
none_of_missing (some x) h = absurd (true≢false h)

module _ (env : Env) where
  contains-conclude :
      (st : SessionState) (a : Agent)
      → contains st.cookie (conclude env st a).listener.cookie_to_state ≡ false
  unfolding conclude
  contains-conclude st a = simp (contains-remove, ==-refl) refl

  contains-reattempt :
      (st : SessionState) (a : Agent)
      → contains st.cookie (reattempt st a).listener.cookie_to_state ≡ true
  unfolding reattempt
  contains-reattempt st a = simp (contains-insert, ==-refl) refl

  -- When an attempt in progress is over, the request of polkit stays exactly if the user neither was
  -- authorized nor cancelled, and fewer than three attempts have failed; else it is gone.
  pub contains-finish_auth :
      (st : SessionState) (a : Agent)
      → st.in_progress ≡ true
      → contains st.cookie (finish_auth env st a).listener.cookie_to_state
        ≡ ((not st.gained_auth && not st.cancelled) && ltb (st.retry_count + 1) max_auth_retries)
  unfolding finish_auth
  contains-finish_auth st a on =
      let counted = record st { retry_count = st.retry_count + 1 } in
      let failed = record counted { error_text = "Too many failed attempts" } in
      let (next, b) = new_auth_session counted (drop_auth_session st.session a) in
      ground (
        arith,
        contains-reattempt next b,
        contains-conclude st a,
        contains-conclude failed (on_session_retry env st.cookie failed.error_text a),
      )

  -- The completion of a third failed attempt deletes the state.
  third_failure_deletes :
      (st : SessionState) (a : Agent)
      → find_state_for_session st.session a ≡ some st
      → st.in_progress ≡ true
      → st.retry_count ≡ 2
      → lookup st.cookie (on_session_completed env st.session false a).listener.cookie_to_state
        ≡ none
  unfolding on_session_completed
  third_failure_deletes st a found on count =
      let failed = record st { gained_auth = false; error_text = "Authentication failed" } in
      let b = on_session_retry env st.cookie "Authentication failed" a in
      rw (found, on_session_completed)
        (none_of_missing _ (contains-finish_auth failed b on ∙ ground (arith, count)))

  finish_cancelled-missing :
      (cookie : String) (a : Agent)
      → lookup cookie a.listener.cookie_to_state ≡ none
      → finish_cancelled env cookie a ≡ emit (used_after_free cookie) a
  unfolding finish_cancelled
  finish_cancelled-missing cookie a e = rw (e, finish_cancelled) refl

  -- Cancelling an authentication whose third attempt is running, where cancelling a session of
  -- polkit reports its completion at once: the completion counts as the third failure and deletes
  -- the state, which the rest of cancelPending then uses.
  pub cancel_pending_dangling :
      (st : SessionState) (a : Agent)
      → env.cancel_completes ≡ true
      → lookup st.cookie a.listener.cookie_to_state ≡ some st
      → lookup st.session a.listener.session_to_state ≡ some st.cookie
      → st.session ≢ 0
      → st.in_progress ≡ true
      → st.retry_count ≡ 2
      → cancel_pending env st.cookie a
        ≡ emit
            (used_after_free st.cookie)
            (on_session_completed env st.session false (emit (auth_cancelled st.session) a))
  unfolding cancel_pending find_state_for_session finish_cancelled
  cancel_pending_dangling st a sync known back real on count =
      let b = emit (auth_cancelled st.session) a in
      let found : find_state_for_session st.session b ≡ some st =
        rw (back, find_state_for_session) known in
      let deleted = third_failure_deletes st b found on count in
      let live : (st.session == 0) ≡ false =
        ground (arith, real, comparable_nat.same_iff st.session 0) in
      rw (known, cancel_pending)
        (rw live (
          ap (finish_cancelled env st.cookie) (if-true env.cancel_completes _ b sync)
          ∙ finish_cancelled-missing st.cookie _ deleted))
