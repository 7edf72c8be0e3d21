-- ===== src/Agent/Operations.antt =====
-- The operations of the agent on its sessions, as steps.
use noctalia_unofficial_auth.Base.{
  ◌-◌, refl, String, Bool, not, List, [], ◌∷◌, ◌==◌, ltb, if◌then◌else◌, inl, inr, Option-cases,
  comparable_string, comparable_nat,
}
use noctalia_unofficial_auth.Base.Int.{ℤ}
use noctalia_unofficial_auth.Base.Table.{lookup, remove}
use noctalia_unofficial_auth.Json.{JsonObject}
use noctalia_unofficial_auth.Session.{
  Session, Source, Context, Result, new_session, set_prompt, set_error, set_info, close,
}
use noctalia_unofficial_auth.Session.Events.{
  to_created_event-IsClean, to_updated_event-IsClean, to_closed_event-IsClean,
}
use noctalia_unofficial_auth.Environment.{Env}
use noctalia_unofficial_auth.ProviderRegistry.{has_active_provider, recompute_active_provider}
use noctalia_unofficial_auth.ProviderRegistry.Authority.{recompute-RegistryOk}
use noctalia_unofficial_auth.SessionStore
use noctalia_unofficial_auth.SessionStore.{Sessions}
use noctalia_unofficial_auth.SessionStore.Laws.{
  update-none, update-some, close_session-none, close_session-some,
}
use noctalia_unofficial_auth.Agent.{
  Agent, launched, store_registry, emit_session_event, refresh_providers,
  ensure_fallback_ui_running, create_session, update_session_prompt, update_session_error,
  update_session_info, emit_update, refresh_if_empty, close_session, on_session_complete,
  prune_stale_providers, update_session_pinentry_retry, fallback_launch_cooldown_ms, socket_args,
}
use noctalia_unofficial_auth.Agent.Steps.{IsClean, CoreOk, Step, Step-refl, Step-trans, Step-if}
use noctalia_unofficial_auth.Agent.Emit.{
  Outputs-Step, emit_session_event-Step, emit_provider_status-Outputs,
}

-- A change of the sessions alone.
sessions-Step : (m : Sessions) (a : Agent) → Step a (record a { sessions = m })
sessions-Step m a h = record {
  keyring = refl;
  flows = refl;
  listener = refl;
  subscribers = refl;
  core = record { queue = h.queue; registry = h.registry };
  said = ([], refl, tt);
}

module _ (env : Env) where
  store_registry-Step :
      (a : Agent) → Step a (store_registry (recompute_active_provider env a.registry).1 a)
  store_registry-Step a h = record {
    keyring = refl;
    flows = refl;
    listener = refl;
    subscribers = refl;
    core = record {
      queue = h.queue;
      registry = recompute-RegistryOk env a.registry h.registry.distinct;
    };
    said = ([], refl, tt);
  }

  pub refresh_providers-Step : (a : Agent) → Step a (refresh_providers env a)
  unfolding refresh_providers
  refresh_providers-Step a =
      let b = store_registry (recompute_active_provider env a.registry).1 a in
      let told = Outputs-Step b _ (emit_provider_status-Outputs env b) in
      Step-trans a b _ (store_registry-Step a)
        (Step-if (recompute_active_provider env a.registry).0 b _ b told (Step-refl b))

  launched-Step :
      (path : String) (args : List String) (a : Agent)
      → Step a
          (record a { last_fallback_launch_ms = env.now_ms; trace = launched path args ∷ a.trace })
  launched-Step path args a h = record {
    keyring = refl;
    flows = refl;
    listener = refl;
    subscribers = refl;
    core = record { queue = h.queue; registry = h.registry };
    said = (launched path args ∷ [], refl, (tt, tt));
  }

  pub ensure_fallback_ui_running-Step : (a : Agent) → Step a (ensure_fallback_ui_running env a)
  unfolding ensure_fallback_ui_running
  ensure_fallback_ui_running-Step a =
      let path =
        if env.fallback_path == ""
        then env.append env.application_dir "/bb-auth-fallback"
        else env.fallback_path in
      let same = Step-refl a in
      Step-if (has_active_provider a.registry) a _ _ same (
        Step-if env.fallback_running a _ _ same (
          Step-if (ltb (env.now_ms - a.last_fallback_launch_ms) fallback_launch_cooldown_ms) a _ _
            same
            (Step-if (not (env.executable path)) a _ _ same (
              Step-if (env.start_detached path) a _ _
                (launched-Step path (socket_args a.socket_path) a) same))))

  -- The sessions change, and then an event goes out.
  emit-Step :
      (event : JsonObject) (m : Sessions) (a : Agent)
      → IsClean event
      → Step a (emit_session_event env event (record a { sessions = m }))
  emit-Step event m a c =
      Step-trans a (record a { sessions = m }) _ (sessions-Step m a)
        (emit_session_event-Step env event (record a { sessions = m }) c)

  pub create_session-Step :
      (id : String) (source : Source) (ctx : Context) (a : Agent)
      → Step a (create_session env id source ctx a)
  unfolding create_session SessionStore.create_session
  create_session-Step id source ctx a =
      let first = emit-Step _ _ a (to_created_event-IsClean (new_session id source ctx)) in
      Step-if _ a _ _ first (Step-trans a _ _ first (ensure_fallback_ui_running-Step _))

  -- The three updates of a session's text.
  update-Step :
      (f : Session → Session) (id : String) (a : Agent)
      → Step a (emit_update env (SessionStore.update f id a.sessions) a)
  update-Step f id a = elim (Option-cases (lookup id a.sessions)) [
    | inl e ↦ rw (update-none id a.sessions f e) (Step-refl a)
    | inr (s, e) ↦
        rw (update-some id a.sessions f s e) (emit-Step _ _ a (to_updated_event-IsClean (f s)))
  ]

  pub update_session_prompt-Step :
      (id prompt : String) (echo clear : Bool) (a : Agent)
      → Step a (update_session_prompt env id prompt echo clear a)
  unfolding update_session_prompt SessionStore.update_prompt
  update_session_prompt-Step id prompt echo clear = update-Step (set_prompt prompt echo clear) id

  pub update_session_error-Step :
      (id error : String) (a : Agent) → Step a (update_session_error env id error a)
  unfolding update_session_error SessionStore.update_error
  update_session_error-Step id error = update-Step (set_error error) id

  pub update_session_info-Step :
      (id info : String) (a : Agent) → Step a (update_session_info env id info a)
  unfolding update_session_info SessionStore.update_info
  update_session_info-Step id info = update-Step (set_info info) id

  refresh_if_empty-Step : (a : Agent) → Step a (refresh_if_empty env a)
  refresh_if_empty-Step a = Step-if _ a _ a (refresh_providers-Step a) (Step-refl a)

  pub refresh_if_empty-core : (a : Agent) → CoreOk a → CoreOk (refresh_if_empty env a)
  refresh_if_empty-core a h = (refresh_if_empty-Step a h).core

  pub close_session-Step :
      (id : String) (result : Result) (a : Agent) → Step a (close_session env id result a)
  unfolding close_session
  close_session-Step id result a = elim (Option-cases (lookup id a.sessions)) [
    | inl e ↦ rw (close_session-none id a.sessions result e) (Step-refl a)
    | inr (s, e) ↦ rw (close_session-some id a.sessions result s e) (
        let b = record a { sessions = remove id a.sessions } in
        Step-trans a b _ (sessions-Step _ a) (
          Step-trans b (refresh_if_empty env b) _ (refresh_if_empty-Step b)
            (emit_session_event-Step env _ _ (to_closed_event-IsClean (close result s)))))
  ]

  pub on_session_complete-Step :
      (id : String) (ok : Bool) (a : Agent) → Step a (on_session_complete env id ok a)
  unfolding on_session_complete
  on_session_complete-Step id ok a =
      let result = if ok then Result.success else Result.cancelled in
      elim (Option-cases (lookup id a.sessions)) [
        | inl e ↦ rw (close_session-none id a.sessions result e) (Step-refl a)
        | inr (s, e) ↦ rw (close_session-some id a.sessions result s e) (
            Step-trans a _ _ (emit-Step _ _ a (to_closed_event-IsClean (close result s)))
              (refresh_if_empty-Step _))
      ]

  pub prune_stale_providers-Step : (a : Agent) → Step a (prune_stale_providers env a)
  unfolding prune_stale_providers
  prune_stale_providers-Step a =
      let b = refresh_providers env a in
      let first = refresh_providers-Step a in
      Step-if _ a _ b (Step-trans a b _ first (ensure_fallback_ui_running-Step b)) first

pub update_session_pinentry_retry-Step :
    (id : String) (cur max : ℤ) (a : Agent) → Step a (update_session_pinentry_retry id cur max a)
unfolding update_session_pinentry_retry
update_session_pinentry_retry-Step id cur max a =
    sessions-Step (SessionStore.update_pinentry_retry id cur max a.sessions).1 a
