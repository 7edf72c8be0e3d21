-- ===== src/Handlers/Secrets.antt =====
-- handleRespond: where a password goes.
use mathlib.Core.Bool.{false≢true}
use noctalia_unofficial_auth.Base.{
  ◌≡◌, ◌⊎◌, refl, sym, String, Bool, true, false, not, ◌||◌, Option, none, some, [], ◌∷◌, ◌==◌, inl,
  inr, if◌then◌else◌, comparable_string, comparable_nat, is_some,
}
use noctalia_unofficial_auth.Base.Lists.{All-map}
use noctalia_unofficial_auth.Base.Table.{lookup}
use noctalia_unofficial_auth.Json.{JsonObject, value, to_string}
use noctalia_unofficial_auth.Session.{Session, is_polkit}
use noctalia_unofficial_auth.EventQueue.{Socket, nullptr}
use noctalia_unofficial_auth.Environment.{Env}
use noctalia_unofficial_auth.ProviderRegistry
use noctalia_unofficial_auth.RequestTypes.{KeyringRequest, PinentryRequest}
use noctalia_unofficial_auth.Agent
use noctalia_unofficial_auth.Agent.{Agent, Effect, sent, send, send_json, emit}
use noctalia_unofficial_auth.Agent.Steps.{IsClean, IsQuiet, Said, Said-trans}
use noctalia_unofficial_auth.KeyringManager
use noctalia_unofficial_auth.KeyringManager.{error_reply, ok_response}
use noctalia_unofficial_auth.PinentryManager
use noctalia_unofficial_auth.PinentryManager.{ok_reply, socket_response}
use noctalia_unofficial_auth.PinentryManager.Attempts.{handle_response-pending}
use noctalia_unofficial_auth.Handlers.{
  respond_keyring, respond_pinentry, respond_session, handle_respond,
}
use noctalia_unofficial_auth.Handlers.Safety.{Inv, Quiet, Quiet-trans, Quiet-if, send-Quiet}
use noctalia_unofficial_auth.Handlers.Managers.{keyring_response-Quiet, pinentry_response-Quiet}
use noctalia_unofficial_auth.Handlers.Polkit.{submit_password-Quiet}

-- The effect hands the response in `msg`, from a socket that may answer, to the socket of the
-- pending request that `msg` names, and asks for the buffer to be wiped.
abbrev pub Released : Socket → JsonObject → Agent → Effect → Type 0
Released s msg a e =
    let cookie = to_string (value "id" msg) in
    let response = to_string (value "response" msg) in
    (ProviderRegistry.is_authorized s a.registry ≡ true)
    × (((q : KeyringRequest) × (lookup cookie a.keyring_requests ≡ some q)
          × (e ≡ sent q.socket (ok_response cookie response) true))
        ⊎ ((q : PinentryRequest) × (lookup cookie a.flows.pending_requests ≡ some q)
            × (e ≡ sent q.socket (socket_response q cookie response) true)))

-- The invariant is kept, and each effect is quiet or releases a response.
abbrev pub Guarded : Socket → JsonObject → Agent → Agent → Type 0
Guarded s msg a b = Inv a → Inv b × Said (λ e. IsQuiet e ⊎ Released s msg a e) a b

emit-Inv : (e : Effect) (a : Agent) → Inv a → Inv (emit e a)
emit-Inv e a h = record {
  core = record { queue = h.core.queue; registry = h.core.registry };
  flows = h.flows;
  subscribers = h.subscribers;
}

module _ (s : Socket) (msg : JsonObject) where
  pub Guarded-Quiet : (a b : Agent) → Quiet a b → Guarded s msg a b
  Guarded-Quiet a b q h =
      let (k, (new, e, all)) = q h in
      (k, (new, e, All-map IsQuiet (λ e. IsQuiet e ⊎ Released s msg a e) (λ e h. inl h) new all))

  Guarded-then : (a b c : Agent) → Guarded s msg a b → Quiet b c → Guarded s msg a c
  Guarded-then a b c g q h =
      let (k, said) = g h in
      let (l, (new, e, all)) = q k in
      (
        l,
        Said-trans (λ e. IsQuiet e ⊎ Released s msg a e) a b c said
            (new, e, All-map IsQuiet (λ e. IsQuiet e ⊎ Released s msg a e) (λ e h. inl h) new all),
      )

  pub Guarded-if :
      (t : Bool) (a b c : Agent)
      → Guarded s msg a b
      → Guarded s msg a c
      → Guarded s msg a (if t then b else c)
  Guarded-if true a b c h k = h
  Guarded-if false a b c h k = k

  -- An if whose branches may use the outcome of the test.
  Guarded-test :
      (t : Bool) (a b c : Agent)
      → (t ≡ true → Guarded s msg a b)
      → (t ≡ false → Guarded s msg a c)
      → Guarded s msg a (if t then b else c)
  Guarded-test true a b c h k = h refl
  Guarded-test false a b c h k = k refl

  Guarded-emit :
      (e : Effect) (a b : Agent)
      → Released s msg a e
      → Guarded s msg a b
      → Guarded s msg a (emit e b)
  Guarded-emit e a b r g h =
      let (k, said) = g h in
      (
        emit-Inv e b k,
        Said-trans (λ e. IsQuiet e ⊎ Released s msg a e) a b (emit e b) said
            (e ∷ [], refl, (inr r, tt)),
      )

  Guarded-send_json :
      (env : Env) (t : Socket) (json : JsonObject) (a b : Agent)
      → Released s msg a (sent t json true)
      → Guarded s msg a b
      → Guarded s msg a (send_json env t json true b)
  unfolding send_json
  Guarded-send_json env t json a b r g =
      Guarded-if (t == nullptr || not (env.connected t)) a b _ g (Guarded-emit _ a b r g)

some_of_is_some {ℓ} : {A : Type ℓ} (o : Option A) → is_some o ≡ true → (x : A) × (o ≡ some x)
some_of_is_some none h = absurd (false≢true h)
some_of_is_some (some x) h = (x, refl)

true_of_not : (t : Bool) → not t ≡ false → t ≡ true
true_of_not true h = refl
true_of_not false h = absurd (false≢true (sym h))

module _ (env : Env) (s : Socket) (msg : JsonObject) (a : Agent) where
  abbrev cookie : String
  cookie = to_string (value "id" msg)

  abbrev response : String
  response = to_string (value "response" msg)

  replies :
      (json : JsonObject) (b : Agent)
      → IsClean json
      → Guarded s msg a b
      → Guarded s msg a (send env s json b)
  replies json b c g = Guarded-then s msg a b _ g (send-Quiet env s json b c)

  keyring_reply :
      (q : KeyringRequest)
      → lookup cookie a.keyring_requests ≡ some q
      → (KeyringManager.handle_response env cookie response a).0 ≡ ok_response cookie response
  unfolding KeyringManager.handle_response
  keyring_reply q e = rw (e, KeyringManager.handle_response) refl

  keyring_socket :
      (q : KeyringRequest)
      → lookup cookie a.keyring_requests ≡ some q
      → KeyringManager.get_socket_for_request cookie a ≡ q.socket
  unfolding KeyringManager.get_socket_for_request
  keyring_socket q e = rw (e, KeyringManager.get_socket_for_request) refl

  respond_keyring-Guarded :
      (q : KeyringRequest)
      → ProviderRegistry.is_authorized s a.registry ≡ true
      → lookup cookie a.keyring_requests ≡ some q
      → Guarded s msg a (respond_keyring env s cookie response a)
  unfolding respond_keyring
  respond_keyring-Guarded q ok e =
      let b = (KeyringManager.handle_response env cookie response a).1 in
      let same = Guarded-Quiet s msg a b (keyring_response-Quiet env cookie response a) in
      rw (keyring_socket q e, keyring_reply q e)
        (replies ok_reply _ refl (
          Guarded-if s msg (q.socket == nullptr) a b _ same
            (Guarded-send_json s msg env q.socket _ a b (ok, inl (q, e, refl)) same)))

  pinentry_reply :
      (q : PinentryRequest)
      → lookup cookie a.flows.pending_requests ≡ some q
      → (PinentryManager.handle_response env cookie response a).0
        ≡ socket_response q cookie response
  pinentry_reply q e = rw (handle_response-pending env cookie response q a e) refl

  pinentry_socket :
      (q : PinentryRequest)
      → lookup cookie a.flows.pending_requests ≡ some q
      → PinentryManager.get_socket_for_pending_input cookie a ≡ q.socket
  unfolding PinentryManager.get_socket_for_pending_input
  pinentry_socket q e = rw (e, PinentryManager.get_socket_for_pending_input) refl

  respond_pinentry-Guarded :
      (q : PinentryRequest)
      → ProviderRegistry.is_authorized s a.registry ≡ true
      → lookup cookie a.flows.pending_requests ≡ some q
      → Guarded s msg a (respond_pinentry env s cookie response a)
  unfolding respond_pinentry
  respond_pinentry-Guarded q ok e =
      let b = (PinentryManager.handle_response env cookie response a).1 in
      let same = Guarded-Quiet s msg a b (pinentry_response-Quiet env cookie response a) in
      rw (pinentry_socket q e, pinentry_reply q e)
        (Guarded-if s msg _ a _ _ (replies _ b refl same) (
          replies ok_reply _ refl
            (Guarded-send_json s msg env q.socket _ a b (ok, inr (q, e, refl)) same)))

  respond_session-Quiet : (o : Option Session) → Quiet a (respond_session env s cookie response o a)
  unfolding respond_session
  respond_session-Quiet none = send-Quiet env s _ a refl
  respond_session-Quiet (some x) =
      Quiet-if (not (is_polkit x.source)) a _ _ (send-Quiet env s _ a refl) (
        Quiet-trans a _ _ (submit_password-Quiet cookie response a)
          (send-Quiet env s ok_reply _ refl))

  pub handle_respond-Guarded : Guarded s msg a (handle_respond env s msg a)
  unfolding handle_respond KeyringManager.has_pending_request PinentryManager.has_pending_input
  handle_respond-Guarded =
      Guarded-test s msg _ a _ _ (λ no. Guarded-Quiet s msg a _ (send-Quiet env s _ a refl))
        (λ ok.
          Guarded-test s msg _ a _ _
            (λ asked.
              let (q, e) = some_of_is_some (lookup cookie a.keyring_requests) asked in
              respond_keyring-Guarded q (true_of_not _ ok) e)
            (λ absent.
              Guarded-test s msg _ a _ _
                (λ asked.
                  let (q, e) = some_of_is_some (lookup cookie a.flows.pending_requests) asked in
                  respond_pinentry-Guarded q (true_of_not _ ok) e)
                (λ gone. Guarded-Quiet s msg a _ (
                  Quiet-if (PinentryManager.has_request cookie a) a _ _ (send-Quiet env s _ a refl)
                    (respond_session-Quiet (Agent.get_session cookie a))))))

  -- Whatever the message and the sender, answering a prompt keeps the invariant, and the only
  -- effects that carry a password are those that hand the response, from a socket that may answer,
  -- to the socket of the pending request that the message names.
  pub handle_respond_releases :
      Inv a
      → Inv (handle_respond env s msg a)
        × Said (λ e. IsQuiet e ⊎ Released s msg a e) a (handle_respond env s msg a)
  handle_respond_releases = handle_respond-Guarded
