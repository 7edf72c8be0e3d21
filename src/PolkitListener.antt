-- ===== src/PolkitListener.antt =====
-- core/PolkitListener.hpp and PolkitListener.cpp: polkit's requests and their attempts, with the
-- methods of core/Agent.cpp that the listener calls.
pub mod Attempts
pub mod Answers
use noctalia_unofficial_auth.Base.{
  ℕ, ◌+◌, String, Bool, true, false, not, ◌&&◌, Option, none, some, List, [], ◌∷◌, map, ltb, ◌==◌,
  if◌then◌else◌, comparable_nat, comparable_string,
}
use noctalia_unofficial_auth.Base.Int.{ℤ}
use noctalia_unofficial_auth.Base.Table.{lookup, insert, remove, contains}
use noctalia_unofficial_auth.Session.{Context, Source, default_context}
use noctalia_unofficial_auth.Environment.{Env, ProcInfo}
use noctalia_unofficial_auth.RequestContext.{extract_subject_pid, resolve_requestor_from_subject}
use noctalia_unofficial_auth.RequestTypes.{SessionState, PolkitTables, Handle}
use noctalia_unofficial_auth.Agent
use noctalia_unofficial_auth.Agent.{
  Agent, emit, result_error, result_completed, auth_created, auth_initiated, auth_response,
  auth_cancelled, auth_deleted, used_after_free, completed,
}

abbrev pub max_auth_retries : ℕ
max_auth_retries = 3

abbrev pub set_listener : PolkitTables → Agent → Agent
set_listener l a = record a { listener = l }

-- The fields of a SessionState, through the pointer.
abbrev pub store_state : SessionState → Agent → Agent
store_state st a =
    set_listener
      (record a.listener { cookie_to_state = insert st.cookie st a.listener.cookie_to_state }) a

unfoldable pub find_state_for_session : Handle → Agent → Option SessionState
find_state_for_session h a = elim (lookup h a.listener.session_to_state) [
  | none ↦ none
  | some cookie ↦ lookup cookie a.listener.cookie_to_state
]

-- new PolkitQt1::Agent::Session, stored in the state and in the reverse map.
unfoldable pub new_auth_session : SessionState → Agent → SessionState × Agent
new_auth_session st a =
    let h = a.listener.next_handle in
    let st' = record st { session = h } in
    (
      st',
      emit (auth_created h st.cookie) (
          set_listener
            (record a.listener {
              session_to_state = insert h st.cookie a.listener.session_to_state;
              next_handle = h + 1;
            })
            a),
    )

unfoldable pub reattempt : SessionState → Agent → Agent
reattempt st a = emit (auth_initiated st.session) (store_state (record st { cancelled = false }) a)

-- m_sessionToState.remove(session); session->deleteLater();
abbrev pub drop_auth_session : Handle → Agent → Agent
drop_auth_session h a =
    if h == 0
    then a
    else emit (auth_deleted h) (
        set_listener (record a.listener { session_to_state = remove h a.listener.session_to_state })
          a)

-- The fields that initiateAuthentication sets, with the defaults of SessionState.
abbrev pub fresh_state :
    String → String → String → (String → String) → String → String → SessionState
fresh_state action_id message icon_name details cookie user = record {
  in_progress = true;
  cancelled = false;
  gained_auth = false;
  cookie = cookie;
  message = message;
  icon_name = icon_name;
  action_id = action_id;
  prompt = "";
  error_text = "";
  echo_on = false;
  request_sent = false;
  details = details;
  selected_user = user;
  session = 0;
  retry_count = 0;
}

module _ (env : Env) where
  abbrev requestor_unknown : Context → Context
  requestor_unknown c =
      if c.requestor.name == ""
      then record c {
        requestor = record c.requestor {
          name = "Unknown";
          fallback_letter = "?";
          fallback_key = "unknown";
        };
      }
      else c

  abbrev requestor_of : ℤ → Option ProcInfo → Context → Context
  requestor_of pid none c = c
  requestor_of pid (some proc) c =
      let actor = resolve_requestor_from_subject env proc in
      record c {
        requestor = record {
          name = actor.display_name;
          icon = actor.icon_name;
          fallback_letter = actor.fallback_letter;
          fallback_key = actor.fallback_key;
          pid = pid;
        };
      }

  abbrev with_requestor : Option ℤ → Context → Context
  with_requestor none c = c
  with_requestor (some pid) c = requestor_of pid (env.read_proc pid) c

  -- CAgent::onPolkitRequest; it does not use the name of the icon.
  unfoldable pub on_polkit_request :
      String → String → String → String → (String → String) → Agent → Agent
  on_polkit_request cookie message action_id user details =
      Agent.create_session env cookie Source.polkit (
        requestor_unknown (
          with_requestor (extract_subject_pid env details)
            (record default_context { message = message; action_id = action_id; user = user })))

  unfoldable pub initiate_authentication :
      String → String → String → (String → String) → String → List String → Agent → Agent
  unfolding new_auth_session reattempt on_polkit_request
  initiate_authentication action_id message icon_name details cookie [] a =
      if contains cookie a.listener.cookie_to_state
      then emit (result_completed cookie) (emit (result_error cookie "Duplicate session") a)
      else emit (result_completed cookie) (
          emit
            (result_error cookie "No identities, this is a problem with your system configuration.")
            a)
  initiate_authentication action_id message icon_name details cookie (user ∷ users) a =
      let (st, b) =
        new_auth_session (fresh_state action_id message icon_name details cookie user) a in
      if contains cookie a.listener.cookie_to_state
      then emit (result_completed cookie) (emit (result_error cookie "Duplicate session") a)
      else reattempt st (on_polkit_request cookie message action_id user details (store_state st b))

  -- The end of finishAuth, when no attempt follows.
  unfoldable pub conclude : SessionState → Agent → Agent
  conclude st a =
      let b =
        emit (result_completed st.cookie) (store_state (record st { in_progress = false }) a) in
      let c =
        Agent.on_session_complete env st.cookie st.gained_auth (drop_auth_session st.session b) in
      let d = emit (completed st.gained_auth) c in
      set_listener
        (record d.listener { cookie_to_state = remove st.cookie d.listener.cookie_to_state }) d

  -- CAgent::onSessionRetry
  abbrev pub on_session_retry : String → String → Agent → Agent
  on_session_retry = Agent.update_session_error env

  unfoldable pub finish_auth : SessionState → Agent → Agent
  unfolding conclude reattempt new_auth_session
  finish_auth st a =
      let counted = record st { retry_count = st.retry_count + 1 } in
      let failed = record counted { error_text = "Too many failed attempts" } in
      let (next, b) = new_auth_session counted (drop_auth_session st.session a) in
      if not st.in_progress
      then a
      else if not st.gained_auth && not st.cancelled
      then if ltb counted.retry_count max_auth_retries
        then reattempt next b
        else conclude failed (on_session_retry st.cookie failed.error_text a)
      else conclude st a

  -- The four slots; `h` is the session that sends the signal.
  unfoldable pub on_session_request : Handle → String → Bool → Agent → Agent
  on_session_request h request echo a = elim (find_state_for_session h a) [
    | none ↦ a
    | some st ↦
        Agent.update_session_prompt env st.cookie request echo true
          (store_state (record st { prompt = request; echo_on = echo; request_sent = true }) a)
  ]

  unfoldable pub on_session_completed : Handle → Bool → Agent → Agent
  unfolding finish_auth
  on_session_completed h gained a = elim (find_state_for_session h a) [
    | none ↦ a
    | some st ↦
        if gained
        then finish_auth (record st { gained_auth = true }) a
        else let failed = record st { gained_auth = false; error_text = "Authentication failed" } in
          finish_auth failed (on_session_retry st.cookie failed.error_text a)
  ]

  unfoldable pub on_session_error : Handle → String → Agent → Agent
  on_session_error h text a = elim (find_state_for_session h a) [
    | none ↦ a
    | some st ↦ on_session_retry st.cookie text (store_state (record st { error_text = text }) a)
  ]

  unfoldable pub on_session_info : Handle → String → Agent → Agent
  on_session_info h text a = elim (find_state_for_session h a) [
    | none ↦ a
    | some st ↦ Agent.update_session_info env st.cookie text a
  ]

  -- What cancelAuthentication does to each state, and what follows session->cancel() in
  -- cancelPending, through the pointer to the state.
  unfoldable pub finish_cancelled : String → Agent → Agent
  finish_cancelled cookie a = elim (lookup cookie a.listener.cookie_to_state) [
    | none ↦ emit (used_after_free cookie) a
    | some st ↦ finish_auth (record st { cancelled = true }) a
  ]

  -- The loop of cancelAuthentication, over the states that `values` copied.
  unfoldable pub cancel_all : List String → Agent → Agent
  unfolding finish_cancelled
  cancel_all [] a = a
  cancel_all (cookie ∷ cookies) a = cancel_all cookies (finish_cancelled cookie a)

  unfoldable pub cancel_authentication : Agent → Agent
  unfolding cancel_all
  cancel_authentication a = cancel_all (map (λ entry. entry.0) a.listener.cookie_to_state) a

  unfoldable pub cancel_pending : String → Agent → Agent
  unfolding finish_cancelled
  cancel_pending cookie a = elim (lookup cookie a.listener.cookie_to_state) [
    | none ↦ a
    | some st ↦
        let b = emit (auth_cancelled st.session) a in
        let c = if env.cancel_completes then on_session_completed st.session false b else b in
        if st.session == 0 then a else finish_cancelled cookie c
  ]

unfoldable pub submit_password : String → String → Agent → Agent
submit_password cookie pass a = elim (lookup cookie a.listener.cookie_to_state) [
  | none ↦ a
  | some st ↦ if st.session == 0 then a else emit (auth_response st.session pass) a
]
