-- ===== src/KeyringManager/Requests.antt =====
-- The life of a request of the keyring.
use noctalia_unofficial_auth.Base.{
  ◌≡◌, refl, ◌∙◌, String, Bool, true, false, Option, none, some, [], ◌∷◌, ◌==◌, if◌then◌else◌,
  comparable_string, comparable_nat, arith, Bool-cases, inl, inr,
}
use noctalia_unofficial_auth.Base.Int.{ℤ}
use noctalia_unofficial_auth.Base.Table.{Table, lookup, insert, remove, Distinct, lookup-remove}
use noctalia_unofficial_auth.Json.{JsonObject, str, value}
use noctalia_unofficial_auth.Session.{Source, Result}
use noctalia_unofficial_auth.EventQueue.{Socket}
use noctalia_unofficial_auth.Environment.{Env}
use noctalia_unofficial_auth.RequestContext.{resolve_actor_for_pid}
use noctalia_unofficial_auth.RequestTypes.{KeyringRequest}
use noctalia_unofficial_auth.Agent
use noctalia_unofficial_auth.Agent.{Agent}
use noctalia_unofficial_auth.Agent.Steps.{CoreOk, Frame}
use noctalia_unofficial_auth.Agent.Operations.{
  create_session-Step, update_session_prompt-Step, close_session-Step,
}
use noctalia_unofficial_auth.KeyringManager.{
  parse_request, request_context, set_requests, cookie_of, handle_request, handle_response, cleanup,
  cleanup_for_socket, ok_response, error_reply,
}

set_requests-CoreOk :
    (m : Table String KeyringRequest) (a : Agent) → CoreOk a → CoreOk (set_requests m a)
set_requests-CoreOk m a h = record { queue = h.queue; registry = h.registry }

-- The request is the socket's.
abbrev pub asked_by : Socket → Option KeyringRequest → Bool
asked_by s none = false
asked_by s (some q) = q.socket == s

-- The reply is to the cookie's request, and its password is the response.
abbrev pub Gives : String → String → JsonObject → Type 0
Gives cookie response reply =
    (value "type" reply ≡ str "keyring_response")
    × (value "id" reply ≡ str cookie)
    × (value "result" reply ≡ str "ok")
    × (value "password" reply ≡ str response)

ok_response-Gives : (cookie response : String) → Gives cookie response (ok_response cookie response)
unfolding ok_response
ok_response-Gives cookie response = (refl, refl, refl, refl)

module _ (env : Env) where
  -- A request is stored under its cookie, and the other requests stay as they were.
  pub handle_request_stores :
      (msg : JsonObject) (s : Socket) (pid : ℤ) (a : Agent)
      → CoreOk a
      → (handle_request env msg s pid a).keyring_requests
        ≡ insert
            (cookie_of env msg)
            (parse_request (cookie_of env msg) s pid msg)
            a.keyring_requests
  unfolding handle_request
  handle_request_stores msg s pid a h =
      let cookie = cookie_of env msg in
      let q = parse_request cookie s pid msg in
      let b = set_requests (insert cookie q a.keyring_requests) a in
      let ctx = request_context q (resolve_actor_for_pid env pid) in
      let f = create_session-Step env cookie Source.keyring ctx b (set_requests-CoreOk _ a h) in
      (update_session_prompt-Step env cookie q.message false true _ f.core).keyring ∙ f.keyring

  close-Frame :
      (c : String) (r : Result) (m : Table String KeyringRequest) (a : Agent)
      → CoreOk a
      → Frame (set_requests m a) (Agent.close_session env c r (set_requests m a))
  close-Frame c r m a h = close_session-Step env c r (set_requests m a) (set_requests-CoreOk m a h)

  -- Answering a pending request gives the password once: the reply carries the response as the
  -- password, the request is gone afterwards, so a second answer gets an error and changes nothing, and
  -- the other requests stay.
  pub respond_once :
      (cookie response again : String) (q : KeyringRequest) (a : Agent)
      → CoreOk a
      → lookup cookie a.keyring_requests ≡ some q
      → Gives cookie response (handle_response env cookie response a).0
        × ((handle_response env cookie response a).1.keyring_requests
            ≡ remove cookie a.keyring_requests)
        × (handle_response env cookie again (handle_response env cookie response a).1
            ≡ (error_reply "Unknown cookie", (handle_response env cookie response a).1))
  unfolding handle_response
  respond_once cookie response again q a h e =
      let b = (handle_response env cookie response a).1 in
      let gone : b.keyring_requests ≡ remove cookie a.keyring_requests =
        rw (e, handle_response) (close-Frame cookie Result.success _ a h).keyring in
      let missing : lookup cookie b.keyring_requests ≡ none = rw gone (
        lookup-remove cookie cookie a.keyring_requests
        ∙ ground (arith, comparable_string.same_iff cookie cookie)) in
      (
        rw (e, handle_response) (ok_response-Gives cookie response),
        gone,
        rw (missing, handle_response) refl,
      )

  -- One entry of the loop.
  abbrev after_entry : Socket → String → KeyringRequest → Agent → Agent
  after_entry s k q a =
      if q.socket == s
      then Agent.close_session env q.cookie Result.cancelled
          (set_requests (remove k a.keyring_requests) a)
      else a

  after_entry-core :
      (s : Socket) (k : String) (q : KeyringRequest) (a : Agent)
      → CoreOk a
      → CoreOk (after_entry s k q a)
        × ((after_entry s k q a).keyring_requests
            ≡ (if q.socket == s then remove k a.keyring_requests else a.keyring_requests))
  after_entry-core s k q a h = elim (Bool-cases (q.socket == s)) [
    | inl e ↦
        let f = close-Frame q.cookie Result.cancelled (remove k a.keyring_requests) a h in
        rw e (f.core, f.keyring)
    | inr e ↦ rw e (h, refl)
  ]

  cleanup-lookup :
      (s : Socket) (k : String) (m : Table String KeyringRequest) (a : Agent)
      → CoreOk a
      → Distinct m
      → lookup k (cleanup env s m a).keyring_requests
        ≡ (if asked_by s (lookup k m) then none else lookup k a.keyring_requests)
  unfolding cleanup lookup
  cleanup-lookup s k [] a h d = refl
  cleanup-lookup s k ((j, q) ∷ m) a h d =
      let (core, left) = after_entry-core s j q a h in
      cleanup-lookup s k m (after_entry s j q a) core d.1
      ∙ ground (arith, left, comparable_string.same_iff j k, lookup-remove j k a.keyring_requests)

  -- When a socket is gone, exactly its requests are: no request of the socket is left, and every
  -- other request is still pending as it was.
  pub lookup-cleanup_for_socket :
      (s : Socket) (k : String) (a : Agent)
      → CoreOk a
      → Distinct a.keyring_requests
      → lookup k (cleanup_for_socket env s a).keyring_requests
        ≡ (if asked_by s (lookup k a.keyring_requests) then none else lookup k a.keyring_requests)
  unfolding cleanup_for_socket
  lookup-cleanup_for_socket s k a h d = cleanup-lookup s k a.keyring_requests a h d
