-- ===== src/Session.antt =====
-- core/Session.hpp and core/Session.cpp: one authentication session and the events that show it.
pub mod Events
use noctalia_unofficial_auth.Base.{
  ℕ, String, Bool, true, false, Option, none, some, List, [], ◌∷◌, ◌==◌, if◌then◌else◌,
  comparable_string,
}
use noctalia_unofficial_auth.Base.Int.{ℤ, pos, negsuc, ltb_int}
use noctalia_unofficial_auth.Json.{
  Json, JsonObject, boolean, num, str, obj, empty, object, set, is_empty,
}

pub data Source : Type 0 where
  polkit keyring pinentry : Source

pub data State : Type 0 where
  prompting closed : State

pub data Result : Type 0 where
  success cancelled error : Result

pub record Requestor : Type 0 where
  pub name : String
  pub icon : String
  pub fallback_letter : String
  pub fallback_key : String
  pub pid : ℤ

pub record Context : Type 0 where
  pub message : String
  pub requestor : Requestor
  pub action_id : String
  pub user : String
  pub details : JsonObject
  pub keyring_name : String
  pub description : String
  pub keyinfo : String
  pub cur_retry : ℤ
  pub max_retries : ℤ
  pub confirm_only : Bool
  pub repeat : Bool

abbrev pub default_context : Context
default_context = record {
  message = "";
  requestor = record { name = ""; icon = ""; fallback_letter = ""; fallback_key = ""; pid = pos 0 };
  action_id = "";
  user = "";
  details = empty;
  keyring_name = "";
  description = "";
  keyinfo = "";
  cur_retry = pos 0;
  max_retries = pos 3;
  confirm_only = false;
  repeat = false;
}

pub record Session : Type 0 where
  pub id : String
  pub source : Source
  pub context : Context
  pub state : State
  pub prompt : String
  pub error_text : String
  pub info : String
  pub echo : Bool
  pub result : Option Result

unfoldable pub new_session : String → Source → Context → Session
new_session i s c = record {
  id = i;
  source = s;
  context = c;
  state = prompting;
  prompt = "";
  error_text = "";
  info = "";
  echo = false;
  result = none;
}

unfoldable pub set_prompt : String → Bool → Bool → Session → Session
set_prompt p e clear_error s = record s {
  prompt = p;
  echo = e;
  state = prompting;
  error_text = if clear_error then "" else s.error_text;
  info = "";
}

unfoldable pub set_error : String → Session → Session
set_error e s = record s { error_text = e }

unfoldable pub set_info : String → Session → Session
set_info i s = record s { info = i }

abbrev pub is_pinentry : Source → Bool
is_pinentry pinentry = true
is_pinentry _ = false

abbrev pub is_polkit : Source → Bool
is_polkit polkit = true
is_polkit _ = false

unfoldable pub set_pinentry_retry : ℤ → ℤ → Session → Session
set_pinentry_retry cur max s =
    if is_pinentry s.source
    then record s {
      context = record s.context {
        cur_retry = if ltb_int cur (pos 0) then pos 0 else cur;
        max_retries = if ltb_int (pos 0) max then max else pos 3;
      };
    }
    else s

abbrev is_success : Result → Bool
is_success success = true
is_success _ = false

unfoldable pub close : Result → Session → Session
close r s = record s {
  result = some r;
  state = closed;
  error_text = if is_success r then "" else s.error_text;
}

abbrev pub source_to_string : Source → String
source_to_string polkit = "polkit"
source_to_string keyring = "keyring"
source_to_string pinentry = "pinentry"

abbrev pub result_to_string : Result → String
result_to_string success = "success"
result_to_string cancelled = "cancelled"
result_to_string error = "error"

-- if (!s.isEmpty()) o[k] = s;
abbrev pub set_text : String → String → JsonObject → JsonObject
set_text k s o = if s == "" then o else set k (str s) o

unfoldable pub requestor_to_json : Requestor → JsonObject
requestor_to_json r =
    let base = object (
      ("name", str r.name)
      ∷ ("icon", str r.icon)
      ∷ ("fallbackLetter", str r.fallback_letter)
      ∷ []) in
    let keyed = set_text "fallbackKey" r.fallback_key base in
    if ltb_int (pos 0) r.pid then set "pid" (num r.pid) keyed else keyed

unfoldable pub source_fields : Source → Context → JsonObject → JsonObject
source_fields polkit c o =
    let named = set_text "user" c.user (set_text "actionId" c.action_id o) in
    if is_empty c.details then named else set "details" (obj c.details) named
source_fields keyring c o = set_text "keyringName" c.keyring_name o
source_fields pinentry c o =
    let named = set_text "keyinfo" c.keyinfo (set_text "description" c.description o) in
    set "repeat" (boolean c.repeat) (
      set "confirmOnly" (boolean c.confirm_only)
        (set "maxRetries" (num c.max_retries) (set "curRetry" (num c.cur_retry) named)))

unfoldable pub context_to_json : Source → Context → JsonObject
unfolding requestor_to_json source_fields
context_to_json s c =
    source_fields s c (
      object (("message", str c.message) ∷ ("requestor", obj (requestor_to_json c.requestor)) ∷ []))

unfoldable pub to_created_event : Session → JsonObject
to_created_event s = object (
    ("type", str "session.created")
    ∷ ("id", str s.id)
    ∷ ("source", str (source_to_string s.source))
    ∷ ("context", obj (context_to_json s.source s.context))
    ∷ [])

abbrev pub retry_fields : Session → JsonObject → JsonObject
retry_fields s o =
    if is_pinentry s.source
    then set "maxRetries" (num s.context.max_retries) (set "curRetry" (num s.context.cur_retry) o)
    else o

unfoldable pub to_updated_event : Session → JsonObject
to_updated_event s = set_text "info" s.info (
    set_text "error" s.error_text (
      retry_fields s (
        object (
          ("type", str "session.updated")
          ∷ ("id", str s.id)
          ∷ ("state", str "prompting")
          ∷ ("prompt", str s.prompt)
          ∷ ("echo", boolean s.echo)
          ∷ []))))

abbrev value_or_error : Option Result → Result
value_or_error none = error
value_or_error (some r) = r

unfoldable pub to_closed_event : Session → JsonObject
to_closed_event s = set_text "error" s.error_text (
    object (
      ("type", str "session.closed")
      ∷ ("id", str s.id)
      ∷ ("result", str (result_to_string (value_or_error s.result)))
      ∷ []))
