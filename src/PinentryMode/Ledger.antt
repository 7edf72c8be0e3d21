-- ===== src/PinentryMode/Ledger.antt =====
-- The requests that a run of the pinentry sends to the daemon, read as a ledger of flows.
use noctalia_unofficial_auth.Base.{
  ℕ, ◌+◌, String, Bool, false, not, ◌&&◌, Option, List, [], ◌∷◌, ◌==◌, ◌≡◌, refl, if◌then◌else◌,
  ◌∙◌, Bool-cases, inl, inr, comparable_nat, comparable_string, arith,
}
use noctalia_unofficial_auth.Json.{JsonObject, value, to_string, to_bool, str, value-set}
use noctalia_unofficial_auth.PinentryMode.{
  PinentryState, terminal_result, password_request, confirm_request, has_result, when_set,
  bare_result, bare_request,
}

-- A result that ends the flow of a cookie, a report that it is to be tried again, and a request.
abbrev pub reports : String → JsonObject → Bool
reports cookie request =
    to_string (value "type" request) == "pinentry_result"
    && to_string (value "id" request) == cookie

abbrev pub ends : String → JsonObject → Bool
ends cookie request = reports cookie request && not (to_string (value "result" request) == "retry")

abbrev pub asks : String → JsonObject → Bool
asks cookie request =
    to_string (value "type" request) == "pinentry_request"
    && to_string (value "cookie" request) == cookie

-- The result with which the daemon accepts a request.
abbrev pub accepting : JsonObject → String
accepting request = if to_bool (value "confirm_only" request) then "confirmed" else "ok"

-- How often the flow of a cookie was ended.
unfoldable pub endings : String → List JsonObject → ℕ
endings cookie [] = 0
endings cookie (request ∷ older) = (if ends cookie request then 1 else 0) + endings cookie older

-- Whether the newest request about a cookie is one that the daemon accepted, so that the daemon
-- awaits the outcome.
unfoldable pub is_owed : (List JsonObject → Option JsonObject) → String → List JsonObject → Bool
is_owed reply cookie [] = false
is_owed reply cookie (request ∷ older) =
    let before = is_owed reply cookie older in
    if reports cookie request
    then false
    else if asks cookie request
    then has_result (accepting request) (reply (request ∷ older))
    else before

pub value-when_set :
    (key asked text : String) (json : JsonObject)
    → (key == asked) ≡ false
    → value asked (when_set key text json) ≡ value asked json
value-when_set key asked text json h = elim (Bool-cases (text == "")) [
  | inl e ↦ rw e refl
  | inr e ↦ rw e (value-set key asked (str text) json ∙ rw h refl)
]

-- What the ledger reads in the request for a terminal result.
pub reports-terminal_result :
    (cookie c result error : String)
    → reports c (terminal_result cookie result error) ≡ (cookie == c)
reports-terminal_result cookie c result error =
    rw
      (
        value-when_set "error" "type" error (bare_result cookie result) refl,
        value-when_set "error" "id" error (bare_result cookie result) refl,
      )
      refl

pub ends-terminal_result :
    (cookie c result error : String)
    → ends c (terminal_result cookie result error) ≡ ((cookie == c) && not (result == "retry"))
ends-terminal_result cookie c result error =
    rw
      (
        value-when_set "error" "type" error (bare_result cookie result) refl,
        value-when_set "error" "id" error (bare_result cookie result) refl,
        value-when_set "error" "result" error (bare_result cookie result) refl,
      )
      refl

pub value-password_request :
    (asked cookie : String) (st : PinentryState)
    → ("keyinfo" == asked) ≡ false
    → ("error" == asked) ≡ false
    → value asked (password_request cookie st) ≡ value asked (bare_request cookie st)
value-password_request asked cookie st h k =
    value-when_set "keyinfo" asked st.keyinfo (when_set "error" st.error (bare_request cookie st)) h
    ∙ value-when_set "error" asked st.error (bare_request cookie st) k

-- What the ledger reads in a request.
abbrev pub IsRequest : String → String → JsonObject → Type 0
IsRequest cookie wanted request =
    (to_string (value "type" request) ≡ "pinentry_request")
    × (to_string (value "cookie" request) ≡ cookie)
    × (accepting request ≡ wanted)

pub password_request-IsRequest :
    (cookie : String) (st : PinentryState) → IsRequest cookie "ok" (password_request cookie st)
password_request-IsRequest cookie st = (
  rw (value-password_request "type" cookie st refl refl) refl,
  rw (value-password_request "cookie" cookie st refl refl) refl,
  rw (value-password_request "confirm_only" cookie st refl refl) refl,
)

pub confirm_request-IsRequest :
    (cookie : String) (st : PinentryState)
    → IsRequest cookie "confirmed" (confirm_request cookie st)
confirm_request-IsRequest cookie st = (refl, refl, refl)

module _ (reply : List JsonObject → Option JsonObject) (c : String) (older : List JsonObject) where
  pub endings-request :
      (cookie wanted : String) (request : JsonObject)
      → IsRequest cookie wanted request
      → endings c (request ∷ older) ≡ endings c older
  unfolding endings
  endings-request cookie wanted request h = rw h.0 (omega arith)

  pub is_owed-request :
      (cookie wanted : String) (request : JsonObject)
      → IsRequest cookie wanted request
      → is_owed reply c (request ∷ older) ≡ (
          if cookie == c
          then has_result wanted (reply (request ∷ older))
          else is_owed reply c older)
  unfolding is_owed
  is_owed-request cookie wanted request h = rw (h.0, h.1, h.2) refl

  pub endings-result :
      (cookie result error : String)
      → endings c (terminal_result cookie result error ∷ older)
        ≡ (if (cookie == c) && not (result == "retry") then 1 else 0) + endings c older
  unfolding endings
  endings-result cookie result error = rw (ends-terminal_result cookie c result error) refl

  pub is_owed-result :
      (cookie result error : String)
      → is_owed reply c (terminal_result cookie result error ∷ older)
        ≡ (if cookie == c then false else is_owed reply c older)
  unfolding is_owed
  is_owed-result cookie result error =
      rw
        (
          reports-terminal_result cookie c result error,
          value-when_set "error" "type" error (bare_result cookie result) refl,
        )
        refl
