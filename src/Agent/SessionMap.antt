-- ===== src/Agent/SessionMap.antt =====
-- What the operations of the agent do to its sessions, as a map from cookies.
use noctalia_unofficial_auth.Base.{
  ◌≡◌, ◌∙◌, String, Bool, none, ◌==◌, if◌then◌else◌, inl, inr, Bool-cases, Option-cases,
  comparable_string, arith,
}
use mathlib.Core.Option
use noctalia_unofficial_auth.Base.Table.{
  lookup, insert, remove, lookup-insert, lookup-remove, lookup-missing,
}
use noctalia_unofficial_auth.Session.{
  Session, Source, Context, Result, new_session, set_prompt, set_error, close, to_created_event,
  to_updated_event,
}
use noctalia_unofficial_auth.Session.Events.{
  to_created_event-IsClean, to_updated_event-IsClean, to_closed_event-IsClean,
}
use noctalia_unofficial_auth.Environment.{Env}
use noctalia_unofficial_auth.ProviderRegistry.{recompute_active_provider, has_active_provider}
use noctalia_unofficial_auth.SessionStore
use noctalia_unofficial_auth.SessionStore.{Sessions}
use noctalia_unofficial_auth.SessionStore.Laws.{
  update-none, update-some, close_session-none, close_session-some,
}
use noctalia_unofficial_auth.Agent.{
  Agent, store_registry, emit_session_event, refresh_providers, refresh_if_empty,
  ensure_fallback_ui_running, create_session, update_session_prompt, update_session_error,
  emit_update, close_session,
}
use noctalia_unofficial_auth.Agent.Steps.{CoreOk}
use noctalia_unofficial_auth.Agent.Emit.{
  Outputs-sessions, emit_session_event-rest, emit_provider_status-Outputs,
}
use noctalia_unofficial_auth.Agent.Operations.{refresh_if_empty-core}

module _ (env : Env) where
  sessions-refresh_providers : (a : Agent) → (refresh_providers env a).sessions ≡ a.sessions
  unfolding refresh_providers
  sessions-refresh_providers a =
      let b = store_registry (recompute_active_provider env a.registry).1 a in
      elim (Bool-cases (recompute_active_provider env a.registry).0) [
        | inl e ↦ rw e (Outputs-sessions b _ (emit_provider_status-Outputs env b))
        | inr e ↦ rw e
      ]

  sessions-refresh_if_empty : (a : Agent) → (refresh_if_empty env a).sessions ≡ a.sessions
  sessions-refresh_if_empty a = elim (Bool-cases (SessionStore.empty a.sessions)) [
    | inl e ↦ rw e (sessions-refresh_providers a)
    | inr e ↦ rw e
  ]

  sessions-ensure_fallback_ui_running :
      (a : Agent) → (ensure_fallback_ui_running env a).sessions ≡ a.sessions
  unfolding ensure_fallback_ui_running
  sessions-ensure_fallback_ui_running a = ground arith

  -- A new session replaces whatever its cookie named, and no other session changes.
  pub sessions-create_session :
      (id : String) (source : Source) (ctx : Context) (a : Agent)
      → CoreOk a
      → (create_session env id source ctx a).sessions
        ≡ insert id (new_session id source ctx) a.sessions
  unfolding create_session SessionStore.create_session
  sessions-create_session id source ctx a h =
      let s = new_session id source ctx in
      let m = insert id s a.sessions in
      let b = emit_session_event env (to_created_event s) (record a { sessions = m }) in
      let e : b.sessions ≡ m =
        (emit_session_event-rest env (to_created_event s) (record a { sessions = m })
          (to_created_event-IsClean s) h.queue).0 in
      elim (Bool-cases (has_active_provider b.registry)) [
        | inl t ↦ rw t e
        | inr t ↦ rw t (sessions-ensure_fallback_ui_running b ∙ e)
      ]

  sessions-update :
      (f : Session → Session) (id j : String) (a : Agent)
      → CoreOk a
      → lookup j (emit_update env (SessionStore.update f id a.sessions) a).sessions
        ≡ (if id == j then Option.map f (lookup id a.sessions) else lookup j a.sessions)
  sessions-update f id j a h = elim (Option-cases (lookup id a.sessions)) [
    | inl e ↦ rw (update-none id a.sessions f e, e) (lookup-missing id j a.sessions e)
    | inr (s, e) ↦
        rw (update-some id a.sessions f s e, e)
          (rw
            (emit_session_event-rest env (to_updated_event (f s))
              (record a { sessions = insert id (f s) a.sessions }) (to_updated_event-IsClean (f s))
              h.queue).0
            (lookup-insert id j (f s) a.sessions))
  ]

  pub sessions-close_session :
      (id j : String) (r : Result) (a : Agent)
      → CoreOk a
      → lookup j (close_session env id r a).sessions
        ≡ (if id == j then none else lookup j a.sessions)
  unfolding close_session
  sessions-close_session id j r a h = elim (Option-cases (lookup id a.sessions)) [
    | inl e ↦ rw (close_session-none id a.sessions r e) (lookup-missing id j a.sessions e)
    | inr (s, e) ↦
        let b = record a { sessions = remove id a.sessions } in
        rw (close_session-some id a.sessions r s e) (
          rw
            (emit_session_event-rest env _ (refresh_if_empty env b)
              (to_closed_event-IsClean (close r s))
              (refresh_if_empty-core env b
                (record { queue = h.queue; registry = h.registry })).queue).0
            (rw (sessions-refresh_if_empty b) (lookup-remove id j a.sessions)))
  ]

  pub sessions-update_session_error :
      (id error j : String) (a : Agent)
      → CoreOk a
      → lookup j (update_session_error env id error a).sessions ≡ (
          if id == j
          then Option.map (set_error error) (lookup id a.sessions)
          else lookup j a.sessions)
  unfolding update_session_error SessionStore.update_error
  sessions-update_session_error id error = sessions-update (set_error error) id

  pub sessions-update_session_prompt :
      (id prompt : String) (echo clear : Bool) (j : String) (a : Agent)
      → CoreOk a
      → lookup j (update_session_prompt env id prompt echo clear a).sessions ≡ (
          if id == j
          then Option.map (set_prompt prompt echo clear) (lookup id a.sessions)
          else lookup j a.sessions)
  unfolding update_session_prompt SessionStore.update_prompt
  sessions-update_session_prompt id prompt echo clear =
      sessions-update (set_prompt prompt echo clear) id
