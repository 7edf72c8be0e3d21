-- ===== src/Examples/Pinentry.antt =====
-- The theorems about the pinentry, applied.
use Prim.Native.Nat.{◌/◌, ◌%◌}
use Prim.Native.Char.{code, char}
use mathlib.Core.Bool.{false≢true}
use noctalia_unofficial_auth.Base.{
  ℕ, zero, suc, ◌+◌, ◌-◌, ◌≤◌, ◌*◌, ◌↔◌, ◌&&◌, String, Bool, true, false, ◌≡◌, ◌≢◌, refl, sym, ap,
  Option, none, some, List, [], ◌∷◌, ◌==◌, if◌then◌else◌, leb, comparable_nat, comparable_string,
}
use noctalia_unofficial_auth.Base.Lists.{length, All}
use noctalia_unofficial_auth.Json.{object, str}
use noctalia_unofficial_auth.Text.{Text}
use noctalia_unofficial_auth.PinentryMode.Codec.{
  CodeFunctions, IsHex, is_coded, doubled, assuan_decode, assuan_encode, decode-encode_iff,
}
use noctalia_unofficial_auth.PinentryMode.{
  World, new_session, terminal_result, has_result, ensure_flow_cookie, report_retry, handle_get_pin,
  finalize_on_stream_close, ok_line, data_line,
}
use noctalia_unofficial_auth.PinentryMode.Commands.{run}
use noctalia_unofficial_auth.PinentryMode.Ledger.{endings, is_owed}
use noctalia_unofficial_auth.PinentryMode.Flow.{AreUnique}
use noctalia_unofficial_auth.PinentryMode.Settles.{run-settles}
use noctalia_unofficial_auth.Base.Int.{pos}
use noctalia_unofficial_auth.Base.Table.{lookup}
use noctalia_unofficial_auth.Session
use noctalia_unofficial_auth.Session.{Result}
use noctalia_unofficial_auth.SessionStore
use noctalia_unofficial_auth.Agent
use noctalia_unofficial_auth.PinentryManager
use noctalia_unofficial_auth.PinentryManager.{
  handle_result, close_flow, ok_reply, validate_result_owner, session_is_pinentry,
}
use noctalia_unofficial_auth.PinentryMode.Commands.{handle_command}
use noctalia_unofficial_auth.PinentryMode.Replies.{Answers, handle_command-Answers}
use noctalia_unofficial_auth.PinentryMode.Verdict.{asking, asked, answer_of, close_infers_success}
use noctalia_unofficial_auth.PinentryMode.Protocol.{handle_result-reports}
use noctalia_unofficial_auth.RequestTypes.{PinentryRequest, no_flows}
use noctalia_unofficial_auth.Agent.{Agent}
use noctalia_unofficial_auth.PinentryManager.{parse_pinentry_request}
use noctalia_unofficial_auth.PinentryMode.{new_state, password_request}
use noctalia_unofficial_auth.PinentryMode.Delivery.{handle_get_pin-delivers}
use noctalia_unofficial_auth.Examples.{env_at, start, pinentry_waits}

-- The digits of a number below 16, and their values.
abbrev digit : ℕ → ℕ
digit n = if leb n 9 then 48 + n else 55 + n

abbrev digit_value : ℕ → Option ℕ
digit_value c =
    if leb 48 c && leb c 57
    then some (c - 48)
    else if leb 65 c && leb c 70
    then some (c - 55)
    else none

abbrev join_digits : Option ℕ → Option ℕ → Option ℕ
join_digits none d = none
join_digits (some c) none = none
join_digits (some c) (some d) = some (16 * c + d)

abbrev hex_codes : CodeFunctions
hex_codes = record {
  hex_value = λ c d. join_digits (digit_value c) (digit_value d);
  arg_hex = λ text c. 37 ∷ 37 ∷ digit (c / 16) ∷ digit (c % 16) ∷ [];
  to_upper = λ text. text;
}

hex_codes-IsHex : IsHex hex_codes
hex_codes-IsHex = record {
  code_percent = refl;
  code_newline = refl;
  code_return = refl;
  value_percent = refl;
  value_newline = refl;
  value_return = refl;
  no_value = λ d. refl;
}

decode-encode_iff_example :
    (assuan_decode hex_codes (assuan_encode hex_codes (97 ∷ 37 ∷ []))
      ≡ doubled hex_codes (97 ∷ 37 ∷ []))
    × ((assuan_decode hex_codes (assuan_encode hex_codes (97 ∷ 37 ∷ [])) ≡ 97 ∷ 37 ∷ [])
        ↔ All (λ c. is_coded c ≡ false) (97 ∷ 37 ∷ []))
decode-encode_iff_example = decode-encode_iff hex_codes hex_codes-IsHex (97 ∷ 37 ∷ [])

-- The n-th identifier is n + 1 letters long.
unfoldable nth_id : ℕ → String
nth_id zero = "a"
nth_id (suc n) = String.◌∷◌ (char 97 tt) (nth_id n)

abbrev tail : String → String
tail String.[] = String.[]
tail (String.◌∷◌ c s) = s

abbrev is_filled : String → Bool
is_filled String.[] = false
is_filled (String.◌∷◌ c s) = true

is_text : (n : ℕ) → nth_id n ≢ ""
unfolding nth_id
is_text zero e = false≢true (sym (ap is_filled e))
is_text (suc n) e = false≢true (sym (ap is_filled e))

nth_id_inj : (m n : ℕ) → nth_id m ≡ nth_id n → m ≡ n
unfolding nth_id
nth_id_inj zero zero e = refl
nth_id_inj zero (suc n) e = absurd (is_text n (sym (ap tail e)))
nth_id_inj (suc m) zero e = absurd (is_text m (ap tail e))
nth_id_inj (suc m) (suc n) e = ap suc (nth_id_inj m n (ap tail e))

nth_id-AreUnique : AreUnique nth_id
nth_id-AreUnique = record { some_text = is_text; distinct = nth_id_inj }

abbrev units : String → Text
units String.[] = []
units (String.◌∷◌ c s) = code c ∷ units s

-- A daemon that answers every request with a password.
abbrev world : World
world = record {
  codes = hex_codes;
  units = units;
  string = λ text. if length text == 6 then "GETPIN" else "BYE";
  to_upper = λ s. s;
  from_std = λ bytes. bytes;
  pid = "77";
  uuid = nth_id;
  reply = λ sent. some (
      object
        (("type", str "pinentry_response") ∷ ("result", str "ok") ∷ ("password", str "x") ∷ []));
}

abbrev getpin : List ℕ
getpin = 71 ∷ 69 ∷ 84 ∷ 80 ∷ 73 ∷ 78 ∷ []

run-settles_example :
    (endings "a" (run world (getpin ∷ getpin ∷ [])).sent ≤ 1)
    × (is_owed world.reply "a" (run world (getpin ∷ getpin ∷ [])).sent ≡ false)
    × ((run world (getpin ∷ getpin ∷ [])).flow_cookie ≡ "")
run-settles_example = run-settles world nth_id-AreUnique (getpin ∷ getpin ∷ []) "a"

answered : has_result "ok" (answer_of world new_session) ≡ true
unfolding ensure_flow_cookie report_retry nth_id
answered = refl

close_infers_success_example :
    ((finalize_on_stream_close world (handle_get_pin world new_session)).sent
      ≡ terminal_result (asking world new_session).flow_cookie "success" ""
        ∷ asked world new_session
        ∷ (asking world new_session).sent)
    × ((handle_get_pin world new_session).out ≡ ok_line "" ∷ data_line (120 ∷ []) ∷ [])
unfolding assuan_encode
close_infers_success_example = close_infers_success world new_session is_text answered

handle_command-Answers_example : Answers [] (handle_command world getpin new_session).1.out
handle_command-Answers_example = handle_command-Answers world getpin new_session

p1_owned : validate_result_owner "p1" (pos 77) pinentry_waits ≡ true
unfolding validate_result_owner lookup
p1_owned = refl

p1_session : session_is_pinentry (Agent.get_session "p1" pinentry_waits) ≡ true
unfolding Agent.get_session SessionStore.get_session lookup Session.new_session
p1_session = refl

handle_result-reports_example :
    let reported = λ (result error : String).
      handle_result (env_at 0) (terminal_result "p1" result error) (pos 77) pinentry_waits in
    (reported "success" ""
      ≡ (ok_reply, close_flow (env_at 0) "p1" Result.success "" pinentry_waits))
    × (reported "cancelled" ""
        ≡ (ok_reply, close_flow (env_at 0) "p1" Result.cancelled "" pinentry_waits))
    × (reported "error" "Bad PIN"
        ≡ (ok_reply, close_flow (env_at 0) "p1" Result.error "Bad PIN" pinentry_waits))
    × (reported "retry" "Bad PIN"
        ≡ (ok_reply, PinentryManager.report_retry (env_at 0) "p1" "Bad PIN" pinentry_waits))
handle_result-reports_example =
    handle_result-reports (env_at 0) "p1" (pos 77) pinentry_waits "Bad PIN"
      (λ e. false≢true (sym (ap is_filled e))) (λ e. false≢true (sym (ap is_filled e))) p1_owned
      p1_session (refl, refl, refl, refl)

-- The request of GETPIN as the daemon has it.
abbrev gpg_request : PinentryRequest
gpg_request = parse_pinentry_request (password_request (nth_id 0) new_state) 4 (pos 77)

abbrev gpg_waits : Agent
gpg_waits = record start {
  flows = record no_flows { pending_requests = (nth_id 0, gpg_request) ∷ [] };
}

-- The user answers every request with the letter x.
abbrev answering : World
answering = record world {
  reply = λ sent. some (PinentryManager.handle_response (env_at 0) (nth_id 0) "x" gpg_waits).0;
}

x_waits :
    lookup (asking answering new_session).flow_cookie gpg_waits.flows.pending_requests
    ≡ some (parse_pinentry_request (asked answering new_session) 4 (pos 77))
unfolding ensure_flow_cookie report_retry lookup nth_id
x_waits = refl

x_replied :
    answer_of answering new_session
    ≡ some
        (PinentryManager.handle_response
          (env_at 0)
          (asking answering new_session).flow_cookie
          "x"
          gpg_waits).0
unfolding ensure_flow_cookie report_retry
x_replied = refl

handle_get_pin-delivers_example :
    (handle_get_pin answering new_session).out ≡ ok_line "" ∷ data_line (120 ∷ []) ∷ []
unfolding assuan_encode
handle_get_pin-delivers_example =
    handle_get_pin-delivers answering (env_at 0) new_session gpg_waits 4 (pos 77) "x"
      (λ e. false≢true (sym (ap is_filled e))) x_waits x_replied
