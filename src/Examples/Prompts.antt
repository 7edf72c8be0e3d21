-- ===== src/Examples/Prompts.antt =====
-- The theorems about the prompts of the fallback window, applied.
use noctalia_unofficial_auth.Base.{
  refl, ap, sym, Bool, String, true, false, ◌≡◌, ◌&&◌, none, List, [], ◌∷◌, ◌==◌, comparable_nat,
  comparable_string,
}
use noctalia_unofficial_auth.Base.Lists.{All}
use noctalia_unofficial_auth.Text.{Text, units}
use noctalia_unofficial_auth.Json.{JsonObject, object, str, obj, value, to_string}
use noctalia_unofficial_auth.Prompt.{TextFunctions}
use mathlib.Core.Bool.{false≢true}
use noctalia_unofficial_auth.FallbackWindow.{FallbackWindow, new_window, click_submit}
use noctalia_unofficial_auth.FallbackWindow.Events.{
  session_created, session_closed, clear_timeout, step,
}
use noctalia_unofficial_auth.FallbackWindow.Answers.{Submits, click_submit_once}
use noctalia_unofficial_auth.FallbackWindow.Races.{success_drops_next}
use noctalia_unofficial_auth.Prompt.Normalize.{keep_unique}
use noctalia_unofficial_auth.Prompt.Unique.{IsUnique, IsFrom, IsCovered, keep_unique-IsUnique}
use noctalia_unofficial_auth.Prompt.Terms.{hint_terms, names_one, said_by}
use noctalia_unofficial_auth.Prompt.Assembly.{build}
use noctalia_unofficial_auth.Prompt.Hints.{Allows, build-Allows}

abbrev functions : TextFunctions
functions = record {
  is_space = λ c. c == 32;
  to_lower = λ text. text;
  capture = λ pattern text. none;
  file_name = λ text. text;
  same_folded = λ x y. false;
  contains_folded = λ text part. false;
  remove_folded = λ part text. text;
}

abbrev lines : List Text
lines = units "swipe now" ∷ units " swipe" ∷ [] ∷ units "login" ∷ []

keep_unique-IsUnique_example :
    IsUnique functions [] (keep_unique functions [] lines)
    × IsFrom functions lines (keep_unique functions [] lines)
    × All (IsCovered functions (keep_unique functions [] lines)) lines
keep_unique-IsUnique_example = keep_unique-IsUnique functions lines

abbrev swipe : JsonObject
swipe = object (
    ("source", str "polkit")
    ∷ ("context", obj (object (("message", str "swipe your finger") ∷ [])))
    ∷ [])

build-Allows_example :
    Allows functions
      (to_string (value "source" swipe) == "polkit"
        && names_one hint_terms (said_by functions swipe))
      (to_string (value "source" swipe) == "pinentry")
      (build functions swipe)
build-Allows_example = build-Allows functions swipe

abbrev event_of : String → String → JsonObject
event_of id result = object (("id", str id) ∷ ("result", str result) ∷ [])

-- A window that shows a session, with a password typed.
abbrev typed_window : FallbackWindow
typed_window = record new_window { current_session_id = "a"; visible = true; input = 120 ∷ [] }

click_submit_once_example :
    Submits typed_window (click_submit functions typed_window)
    × (click_submit functions (click_submit functions typed_window)
        ≡ click_submit functions typed_window)
click_submit_once_example = click_submit_once functions typed_window

abbrev is_filled : String → Bool
is_filled String.[] = false
is_filled (String.◌∷◌ c s) = true

success_drops_next_example :
    let shown =
      step functions
        (session_created (event_of "b" ""))
        (step functions (session_closed (event_of "a" "success")) typed_window) in
    let after = step functions clear_timeout shown in
    (shown.current_session_id ≡ "b")
    × (after.current_session_id ≡ "")
    × (after.visible ≡ false)
    × (after.sent ≡ [])
success_drops_next_example =
    success_drops_next functions (event_of "a" "success") (event_of "b" "") typed_window
      (λ e. false≢true (sym (ap is_filled e))) refl refl (λ e. false≢true (sym (ap is_filled e)))
