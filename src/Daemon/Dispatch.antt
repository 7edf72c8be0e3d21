-- ===== src/Daemon/Dispatch.antt =====
-- A message of any type, and the invariant.
use noctalia_unofficial_auth.Base.{
  refl, String, [], ◌∷◌, ◌==◌, inl, inr, Option, none, some, Option-cases, Bool-cases, subst,
  comparable_string, comparable_nat,
}
use noctalia_unofficial_auth.Base.Lists.{All}
use noctalia_unofficial_auth.Base.Table.{Table, lookup}
use noctalia_unofficial_auth.Json.{JsonObject}
use noctalia_unofficial_auth.EventQueue.{Socket}
use noctalia_unofficial_auth.Environment.{Env}
use noctalia_unofficial_auth.Agent.{Agent}
use noctalia_unofficial_auth.Handlers.{handlers, handle_message, dispatch}
use noctalia_unofficial_auth.Handlers.Safety.{send-Quiet}
use noctalia_unofficial_auth.Handlers.Messages.{
  ping-Quiet, next-Quiet, subscribe-Quiet, handle_keyring_request-Quiet,
  handle_pinentry_request-Quiet, handle_pinentry_result-Quiet,
}
use noctalia_unofficial_auth.Handlers.Providers.{
  ui_register-Quiet, ui_heartbeat-Quiet, ui_unregister-Quiet,
}
use noctalia_unofficial_auth.Handlers.Secrets.{Guarded, Guarded-Quiet, handle_respond-Guarded}
use noctalia_unofficial_auth.Handlers.Cancel.{handle_cancel-Quiet}

-- A predicate on what is found.
abbrev Holds {ℓ κ} : {V : Type ℓ} → (V → Type κ) → Option V → Type κ
Holds P none = Unit
Holds P (some v) = P v

lookup-All {ℓ κ} :
    {V : Type ℓ} (P : V → Type κ) (k : String) (m : Table String V)
    → All (λ (entry : String × V). P entry.1) m
    → Holds P (lookup k m)
unfolding lookup
lookup-All P k [] h = tt
lookup-All P k ((j, v) ∷ m) h = elim (Bool-cases (j == k)) [
  | inl e ↦ rw e h.0
  | inr e ↦ rw e (lookup-All P k m h.1)
]

module _ (env : Env) (s : Socket) (msg : JsonObject) (a : Agent) where
  -- What a handler does to the daemon when it gets the message.
  abbrev IsGuarded : (Socket → JsonObject → Agent → Agent) → Type 0
  IsGuarded handler = Guarded s msg a (handler s msg a)

  handlers-Guarded : All (λ entry. IsGuarded entry.1) (handlers env)
  unfolding handlers
  handlers-Guarded = (
    Guarded-Quiet s msg a _ (ping-Quiet env s msg a),
    (
      Guarded-Quiet s msg a _ (subscribe-Quiet env s msg a),
      (
        Guarded-Quiet s msg a _ (next-Quiet env s msg a),
        (
          Guarded-Quiet s msg a _ (handle_keyring_request-Quiet env s msg a),
          (
            Guarded-Quiet s msg a _ (handle_pinentry_request-Quiet env s msg a),
            (
              Guarded-Quiet s msg a _ (handle_pinentry_result-Quiet env s msg a),
              (
                Guarded-Quiet s msg a _ (ui_register-Quiet env s msg a),
                (
                  Guarded-Quiet s msg a _ (ui_heartbeat-Quiet env s msg a),
                  (
                    Guarded-Quiet s msg a _ (ui_unregister-Quiet env s msg a),
                    (
                      handle_respond-Guarded env s msg a,
                      (Guarded-Quiet s msg a _ (handle_cancel-Quiet env s msg a), tt),
                    ),
                  ),
                ),
              ),
            ),
          ),
        ),
      ),
    ),
  )

  pub handle_message-Guarded : (type : String) → Guarded s msg a (handle_message env s type msg a)
  unfolding handle_message
  handle_message-Guarded type = elim (Option-cases (lookup type (handlers env))) [
    | inl e ↦ rw (e, dispatch) (Guarded-Quiet s msg a _ (send-Quiet env s _ a refl))
    | inr (handler, e) ↦
        rw (e, dispatch)
          (subst (Holds IsGuarded) e (lookup-All IsGuarded type (handlers env) handlers-Guarded))
  ]
