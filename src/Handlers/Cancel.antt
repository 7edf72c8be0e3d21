-- ===== src/Handlers/Cancel.antt =====
-- handleCancel, and the sockets that may not answer.
use mathlib.Core.Bool.{false≢true}
use noctalia_unofficial_auth.Base.{
  ◌∷◌, ◌≡◌, ◌≢◌, ◌<◌, ◌∙◌, ◌⊎◌, sym, [], refl, String, true, false, not, Option, none, some, ◌==◌,
  inl, inr, comparable_string, comparable_nat, Option-cases, arith,
}
use noctalia_unofficial_auth.Base.Table.{Table, lookup, contains, Distinct}
use noctalia_unofficial_auth.Base.Int.{◌<ℤ◌}
use noctalia_unofficial_auth.Json.{JsonObject, value, to_string}
use noctalia_unofficial_auth.Session.{Session, is_polkit}
use noctalia_unofficial_auth.EventQueue.{Socket, nullptr, is_nil}
use noctalia_unofficial_auth.Environment.{Env}
use noctalia_unofficial_auth.ProviderRegistry
use noctalia_unofficial_auth.ProviderRegistry.{
  ProviderRegistry, UiProvider, recompute_active_provider,
}
use noctalia_unofficial_auth.ProviderRegistry.Choice.{BestIsActive}
use noctalia_unofficial_auth.ProviderRegistry.Recompute.{recompute-BestIsActive}
use noctalia_unofficial_auth.Agent
use noctalia_unofficial_auth.Agent.{Agent, send, send_json}
use noctalia_unofficial_auth.Agent.Steps.{IsClean}
use noctalia_unofficial_auth.KeyringManager
use noctalia_unofficial_auth.KeyringManager.{error_reply}
use noctalia_unofficial_auth.PinentryManager
use noctalia_unofficial_auth.PinentryManager.{ok_reply}
use noctalia_unofficial_auth.Handlers.{
  set_registry, cancel_keyring, cancel_pinentry, cancel_session, handle_cancel, handle_respond,
}
use noctalia_unofficial_auth.Handlers.Safety.{Quiet, Quiet-refl, Quiet-trans, Quiet-if, send-Quiet}
use noctalia_unofficial_auth.Handlers.Managers.{keyring_cancel-Quiet, pinentry_cancel-Quiet}
use noctalia_unofficial_auth.Handlers.Polkit.{cancel_pending-Quiet}

keyring_cancel-IsClean :
    (env : Env) (cookie : String) (a : Agent)
    → IsClean (KeyringManager.handle_cancel env cookie a).0
unfolding KeyringManager.handle_cancel KeyringManager.cancelled_response
keyring_cancel-IsClean env cookie a = elim (Option-cases (lookup cookie a.keyring_requests)) [
  | inl e ↦ rw (e, KeyringManager.handle_cancel) refl
  | inr (q, e) ↦ rw (e, KeyringManager.handle_cancel) refl
]

pinentry_cancel-IsClean :
    (env : Env) (cookie : String) (a : Agent)
    → IsClean (PinentryManager.handle_cancel env cookie a).0
unfolding PinentryManager.handle_cancel PinentryManager.cancelled_response
pinentry_cancel-IsClean env cookie a = ground arith

module _ (env : Env) (s : Socket) (cookie : String) (a : Agent) where
  cancel_keyring-Quiet : Quiet a (cancel_keyring env s cookie a)
  unfolding cancel_keyring
  cancel_keyring-Quiet =
      let orig = KeyringManager.get_socket_for_request cookie a in
      let (reply, b) = KeyringManager.handle_cancel env cookie a in
      Quiet-trans a b _ (keyring_cancel-Quiet env cookie a) (
        Quiet-trans b _ _
          (Quiet-if (orig == nullptr) b b _ (Quiet-refl b)
            (send-Quiet env orig reply b (keyring_cancel-IsClean env cookie a)))
          (send-Quiet env s ok_reply _ refl))

  cancel_pinentry-Quiet : Quiet a (cancel_pinentry env s cookie a)
  unfolding cancel_pinentry
  cancel_pinentry-Quiet =
      let orig = PinentryManager.get_socket_for_pending_input cookie a in
      let (reply, b) = PinentryManager.handle_cancel env cookie a in
      let clean = pinentry_cancel-IsClean env cookie a in
      Quiet-trans a b _ (pinentry_cancel-Quiet env cookie a) (
        Quiet-if (to_string (value "type" reply) == "error") b _ _ (send-Quiet env s reply b clean)
          (Quiet-trans b _ _
            (Quiet-if (orig == nullptr) b b _ (Quiet-refl b) (send-Quiet env orig reply b clean))
            (send-Quiet env s ok_reply _ refl)))

  cancel_session-Quiet : (o : Option Session) → Quiet a (cancel_session env s cookie o a)
  unfolding cancel_session
  cancel_session-Quiet none = send-Quiet env s _ a refl
  cancel_session-Quiet (some x) =
      Quiet-if (not (is_polkit x.source)) a _ _ (send-Quiet env s _ a refl)
        (Quiet-trans a _ _ (cancel_pending-Quiet env cookie a) (send-Quiet env s ok_reply _ refl))

module _ (env : Env) (s : Socket) (msg : JsonObject) (a : Agent) where
  pub handle_cancel-Quiet : Quiet a (handle_cancel env s msg a)
  unfolding handle_cancel
  handle_cancel-Quiet =
      let cookie = to_string (value "id" msg) in
      Quiet-if (not (ProviderRegistry.is_authorized s a.registry)) a _ _ (send-Quiet env s _ a refl)
        (Quiet-if (KeyringManager.has_pending_request cookie a) a _ _
          (cancel_keyring-Quiet env s cookie a)
          (Quiet-if (PinentryManager.has_request cookie a) a _ _
            (cancel_pinentry-Quiet env s cookie a)
            (cancel_session-Quiet env s cookie a (Agent.get_session cookie a))))

  unauthorized_changes_nothing :
      ProviderRegistry.is_authorized s a.registry ≡ false
      → (handle_respond env s msg a ≡ send env s (error_reply "Not active UI provider") a)
        × (handle_cancel env s msg a ≡ send env s (error_reply "Not active UI provider") a)
  unfolding handle_cancel handle_respond
  unauthorized_changes_nothing h = (rw h refl, rw h refl)

-- `q` ranks below `p`: its priority is lower, or the same with an earlier heartbeat.
abbrev pub Below : UiProvider → UiProvider → Type 0
Below q p =
    (q.priority <ℤ p.priority)
    ⊎ ((q.priority ≡ p.priority) × (q.last_heartbeat_ms < p.last_heartbeat_ms))

Below-not_active :
    (r : ProviderRegistry) (s t : Socket) (p q : UiProvider)
    → BestIsActive r
    → lookup s r.ui_providers ≡ some p
    → lookup t r.ui_providers ≡ some q
    → Below q p
    → t ≢ r.active_provider
unfolding lookup
Below-not_active r s t p q (inl (none_left, e)) h k below same =
    absurd (none_found (rw none_left at k))
  where
    none_found : none ≡ some q → ⊥
    none_found e = cc e
Below-not_active r s t p q (inr (best, found, e, top)) h k below same =
    let here : q ≡ best = some_inj q best (sym k ∙ rw same found) in ground (arith, top s p h, here)
  where
    some_inj : (x y : UiProvider) → some x ≡ some y → x ≡ y
    some_inj x y h = cc

filled : (t : Socket) (m : Table Socket UiProvider) → contains t m ≡ true → is_nil m ≡ false
unfolding lookup
filled t [] h = absurd (false≢true h)
filled t (x ∷ m) h = refl

not_active :
    (t : Socket) (r : ProviderRegistry)
    → contains t r.ui_providers ≡ true
    → t ≢ r.active_provider
    → ProviderRegistry.is_authorized t r ≡ false
unfolding ProviderRegistry.is_authorized
not_active t r h other =
    ground (arith, filled t r.ui_providers h, comparable_nat.same_iff t r.active_provider)

-- After the providers have been recomputed, a provider that ranks below another one can neither
-- answer nor cancel anything: it gets an error, and every part of the daemon's state stays as it
-- was.
pub outranked_changes_nothing :
    (env later : Env) (msg : JsonObject) (s t : Socket) (p q : UiProvider) (a : Agent)
    → Distinct a.registry.ui_providers
    → let r = (recompute_active_provider env a.registry).1 in
      lookup s r.ui_providers ≡ some p
      → lookup t r.ui_providers ≡ some q
      → Below q p
      → let b = set_registry r a in
        (handle_respond later t msg b ≡ send later t (error_reply "Not active UI provider") b)
        × (handle_cancel later t msg b ≡ send later t (error_reply "Not active UI provider") b)
outranked_changes_nothing env later msg s t p q a d h k below =
    let r = (recompute_active_provider env a.registry).1 in
    let other = Below-not_active r s t p q (recompute-BestIsActive env a.registry d) h k below in
    let known : contains t r.ui_providers ≡ true = rw k refl in
    unauthorized_changes_nothing later t msg (set_registry r a) (not_active t r known other)
