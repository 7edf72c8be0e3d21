-- ===== src/SessionStore/Laws.antt =====
-- The store as a map from cookies to sessions.
use noctalia_unofficial_auth.Base.{◌≡◌, String, none, some, comparable_string}
use noctalia_unofficial_auth.Base.Table.{lookup, insert, remove}
use noctalia_unofficial_auth.Session.{Session, Result, close, to_updated_event, to_closed_event}
use noctalia_unofficial_auth.SessionStore.{Sessions, update, close_session}

module _ (id : String) (m : Sessions) where
  pub update-none : (f : Session → Session) → lookup id m ≡ none → update f id m ≡ (none, m)
  update-none f e = rw (e, update)

  pub update-some :
      (f : Session → Session) (s : Session)
      → lookup id m ≡ some s
      → update f id m ≡ (some (to_updated_event (f s)), insert id (f s) m)
  update-some f s e = rw (e, update)

  pub close_session-none : (r : Result) → lookup id m ≡ none → close_session id r m ≡ (none, m)
  unfolding close_session
  close_session-none r e = rw (e, close_session)

  pub close_session-some :
      (r : Result) (s : Session)
      → lookup id m ≡ some s
      → close_session id r m ≡ (some (to_closed_event (close r s)), remove id m)
  unfolding close_session
  close_session-some r s e = rw (e, close_session)
