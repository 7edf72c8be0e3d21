-- ===== src/SessionStore.antt =====
-- core/agent/SessionStore.hpp and SessionStore.cpp: the open sessions by their cookies.
pub mod Laws
use noctalia_unofficial_auth.Base.{
  ℕ, String, Bool, true, false, Option, none, some, [], if◌then◌else◌, comparable_string,
}
use noctalia_unofficial_auth.Base.Int.{ℤ}
use noctalia_unofficial_auth.Base.Lists.{length}
use noctalia_unofficial_auth.Base.Table.{Table, lookup, insert, remove}
use noctalia_unofficial_auth.EventQueue.{is_nil}
use noctalia_unofficial_auth.Json.{JsonObject}
use noctalia_unofficial_auth.Session.{
  Session, Source, Context, Result, is_pinentry, new_session, set_prompt, set_error, set_info,
  set_pinentry_retry, close, to_created_event, to_updated_event, to_closed_event,
}

abbrev pub Sessions : Type 0
Sessions = Table String Session

unfoldable pub create_session : String → Source → Context → Sessions → JsonObject × Sessions
create_session id source ctx m =
    let s = new_session id source ctx in (to_created_event s, insert id s m)

-- The find, change and report of the three update operations.
abbrev pub update : (Session → Session) → String → Sessions → Option JsonObject × Sessions
update f id m = elim (lookup id m) [
  | none ↦ (none, m)
  | some s ↦ (some (to_updated_event (f s)), insert id (f s) m)
]

unfoldable pub update_prompt :
    String → String → Bool → Bool → Sessions → Option JsonObject × Sessions
update_prompt id prompt echo clear_error = update (set_prompt prompt echo clear_error) id

unfoldable pub update_error : String → String → Sessions → Option JsonObject × Sessions
update_error id error = update (set_error error) id

unfoldable pub update_info : String → String → Sessions → Option JsonObject × Sessions
update_info id info = update (set_info info) id

unfoldable pub update_pinentry_retry : String → ℤ → ℤ → Sessions → Bool × Sessions
update_pinentry_retry id cur max m = elim (lookup id m) [
  | none ↦ (false, m)
  | some s ↦
      if is_pinentry s.source
      then (true, insert id (set_pinentry_retry cur max s) m)
      else (false, m)
]

unfoldable pub close_session : String → Result → Sessions → Option JsonObject × Sessions
close_session id result m = elim (lookup id m) [
  | none ↦ (none, m)
  | some s ↦ (some (to_closed_event (close result s)), remove id m)
]

unfoldable pub get_session : String → Sessions → Option Session
get_session id m = lookup id m

unfoldable pub empty : Sessions → Bool
empty m = is_nil m

unfoldable pub size : Sessions → ℕ
size m = length m
