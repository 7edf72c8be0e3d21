-- ===== src/Handlers/Providers.antt =====
-- The handlers of providers and the end of a connection, and the invariant.
use mathlib.Core.Bool.{false≢true}
use noctalia_unofficial_auth.Base.{
  ◌≡◌, refl, true, not, ◌||◌, List, [], ◌∷◌, ◌==◌, comparable_string, comparable_nat,
}
use noctalia_unofficial_auth.Base.Lists.{remove_one, remove_all, remove_one-Unique}
use noctalia_unofficial_auth.Base.Table.{Distinct}
use noctalia_unofficial_auth.Json.{JsonObject}
use noctalia_unofficial_auth.EventQueue
use noctalia_unofficial_auth.EventQueue.{Socket, EventQueue, nullptr, first_event, is_nil}
use noctalia_unofficial_auth.Environment.{Env}
use noctalia_unofficial_auth.ProviderRegistry
use noctalia_unofficial_auth.ProviderRegistry.{UiProvider, ProviderRegistry}
use noctalia_unofficial_auth.ProviderRegistry.Authority.{
  recompute-RegistryOk, register_provider-Distinct, heartbeat-Distinct,
  unregister_provider-Distinct,
}
use noctalia_unofficial_auth.Agent
use noctalia_unofficial_auth.Agent.{Agent, Effect, sent, send, send_json}
use noctalia_unofficial_auth.Agent.Steps.{QueueOk}
use noctalia_unofficial_auth.Agent.Emit.{Outputs-Step, emit_provider_status-Outputs}
use noctalia_unofficial_auth.Agent.Operations.{ensure_fallback_ui_running-Step}
use noctalia_unofficial_auth.PinentryManager.{ok_reply}
use noctalia_unofficial_auth.Handlers.{
  on_client_disconnected, set_registry, handle_ui_register, handle_ui_heartbeat, ensure_ui,
  handle_ui_unregister,
}
use noctalia_unofficial_auth.Handlers.Safety.{
  Quiet, Quiet-refl, Quiet-trans, Quiet-if, Step-Quiet, send-Quiet, queue-Quiet, registry-Quiet,
  subscribers-Quiet,
}
use noctalia_unofficial_auth.Handlers.Managers.{
  keyring_cleanup_for_socket-Quiet, pinentry_cleanup_for_socket-Quiet,
}

waiters-served :
    (s : Socket) (es : List JsonObject) (ws : List Socket)
    → (is_nil es || is_nil ws) ≡ true
    → (is_nil es || is_nil (remove_all s ws)) ≡ true
unfolding remove_all
waiters-served s [] ws h = refl
waiters-served s (e ∷ es) [] h = refl
waiters-served s (e ∷ es) (w ∷ ws) h = absurd (false≢true h)

remove_waiter-QueueOk :
    (s : Socket) (q : EventQueue) → QueueOk q → QueueOk (EventQueue.remove_waiter s q)
unfolding EventQueue.remove_waiter
remove_waiter-QueueOk s q h = record {
  room = h.room;
  bounded = h.bounded;
  clean = h.clean;
  served = waiters-served s q.events q.next_waiters h.served;
}

remove_socket-Distinct :
    (s : Socket) (r : ProviderRegistry)
    → Distinct r.ui_providers
    → Distinct (ProviderRegistry.remove_socket s r).1.ui_providers
unfolding ProviderRegistry.remove_socket
remove_socket-Distinct s r = unregister_provider-Distinct s r

module _ (env : Env) where
  -- A change of the registry, after which the active provider is chosen anew.
  refreshed-Quiet :
      (r : ProviderRegistry) (a : Agent)
      → (Distinct a.registry.ui_providers → Distinct r.ui_providers)
      → Quiet a (Agent.refresh_providers env (set_registry r a))
  unfolding Agent.refresh_providers
  refreshed-Quiet r a d =
      let (changed, r') = ProviderRegistry.recompute_active_provider env r in
      let b = record a { registry = r' } in
      Quiet-trans a b _ (registry-Quiet a r' (λ h. recompute-RegistryOk env r (d h.distinct))) (
        Quiet-if changed b _ b
          (Step-Quiet b _ (Outputs-Step b _ (emit_provider_status-Outputs env b))) (Quiet-refl b))

  pub ui_register-Quiet :
      (s : Socket) (msg : JsonObject) (a : Agent) → Quiet a (handle_ui_register env s msg a)
  unfolding handle_ui_register
  ui_register-Quiet s msg a =
      let (p, r) = ProviderRegistry.register_provider env s msg a.registry in
      let (changed, r') = ProviderRegistry.recompute_active_provider env r in
      let b = record a { registry = r' } in
      let told =
        λ (c : Agent). Step-Quiet c _ (Outputs-Step c _ (emit_provider_status-Outputs env c)) in
      Quiet-trans a b _
        (registry-Quiet a r' (λ h.
          recompute-RegistryOk env r (register_provider-Distinct env s msg a.registry h.distinct)))
        (Quiet-trans b _ _ (send-Quiet env s _ b refl)
          (Quiet-if (changed || s == r'.active_provider) _ _ _ (told _) (Quiet-refl _)))

  pub ui_heartbeat-Quiet :
      (s : Socket) (msg : JsonObject) (a : Agent) → Quiet a (handle_ui_heartbeat env s msg a)
  unfolding handle_ui_heartbeat
  ui_heartbeat-Quiet s msg a =
      let (known, r) = ProviderRegistry.heartbeat env s a.registry in
      Quiet-if (not known) a _ _ (send-Quiet env s _ a refl) (
        Quiet-trans a _ _ (refreshed-Quiet r a (heartbeat-Distinct env s a.registry))
          (send-Quiet env s _ _ refl))

  ensure_ui-Quiet : (a : Agent) → Quiet a (ensure_ui env a)
  unfolding ensure_ui
  ensure_ui-Quiet a =
      Quiet-if _ a _ a (Step-Quiet a _ (ensure_fallback_ui_running-Step env a)) (Quiet-refl a)

  pub ui_unregister-Quiet :
      (s : Socket) (msg : JsonObject) (a : Agent) → Quiet a (handle_ui_unregister env s msg a)
  unfolding handle_ui_unregister
  ui_unregister-Quiet s msg a =
      let (known, r) = ProviderRegistry.unregister_provider s a.registry in
      Quiet-if (not known) a _ _ (send-Quiet env s _ a refl) (
        Quiet-trans a _ _ (refreshed-Quiet r a (unregister_provider-Distinct s a.registry))
          (Quiet-trans _ _ _ (send-Quiet env s ok_reply _ refl) (ensure_ui-Quiet _)))

  drop_subscriber-Quiet :
      (s : Socket) (a : Agent) → Quiet a (record a { subscribers = remove_one s a.subscribers })
  drop_subscriber-Quiet s a = subscribers-Quiet a _ (remove_one-Unique s a.subscribers)

  pub on_client_disconnected-Quiet :
      (s : Socket) (a : Agent) → Quiet a (on_client_disconnected env s a)
  unfolding on_client_disconnected
  on_client_disconnected-Quiet s a =
      let b = record a { subscribers = remove_one s a.subscribers } in
      let (known, r) = ProviderRegistry.remove_socket s b.registry in
      Quiet-trans a b _ (drop_subscriber-Quiet s a) (
        Quiet-trans b _ _
          (Quiet-if known b _ b (refreshed-Quiet r b (remove_socket-Distinct s b.registry))
            (Quiet-refl b))
          (Quiet-trans _ _ _ (queue-Quiet _ _ (remove_waiter-QueueOk s _)) (
            Quiet-trans _ _ _ (keyring_cleanup_for_socket-Quiet env s _)
              (Quiet-trans _ _ _ (pinentry_cleanup_for_socket-Quiet env s _) (ensure_ui-Quiet _)))))
