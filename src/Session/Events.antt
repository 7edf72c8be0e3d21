-- ===== src/Session/Events.antt =====
-- The fields of the events of a session.
use noctalia_unofficial_auth.Base.{
  ◌≡◌, refl, String, false, ◌==◌, comparable_string, inl, inr, Bool-cases,
}
use noctalia_unofficial_auth.Json.{JsonObject, contains, value, str, contains-set, value-set}
use noctalia_unofficial_auth.Session.{
  Session, is_pinentry, set_text, retry_fields, to_created_event, to_updated_event, to_closed_event,
}

set_text-keeps :
    (k j t : String) (o : JsonObject)
    → (k == j) ≡ false
    → contains j (set_text k t o) ≡ contains j o
set_text-keeps k j t o h = elim (Bool-cases (t == "")) [
  | inl e ↦ rw e
  | inr e ↦ rw (e, contains-set k j (str t) o, h)
]

value-set_text :
    (k j t : String) (o : JsonObject) → (k == j) ≡ false → value j (set_text k t o) ≡ value j o
value-set_text k j t o h = elim (Bool-cases (t == "")) [
  | inl e ↦ rw e
  | inr e ↦ rw (e, value-set k j (str t) o, h)
]

pub to_created_event-IsClean : (s : Session) → contains "password" (to_created_event s) ≡ false
unfolding to_created_event
to_created_event-IsClean s = refl

retry_fields-keeps :
    (s : Session) (j : String) (o : JsonObject)
    → ("maxRetries" == j) ≡ false
    → ("curRetry" == j) ≡ false
    → (contains j (retry_fields s o) ≡ contains j o) × (value j (retry_fields s o) ≡ value j o)
retry_fields-keeps s j o h k = elim (Bool-cases (is_pinentry s.source)) [
  | inl e ↦ rw e (simp (contains-set, value-set, h, k) (refl, refl))
  | inr e ↦ rw e (refl, refl)
]

pub to_updated_event-IsClean : (s : Session) → contains "password" (to_updated_event s) ≡ false
unfolding to_updated_event
to_updated_event-IsClean s = rw (
  set_text-keeps "info" "password" s.info _ refl,
  set_text-keeps "error" "password" s.error_text _ refl,
  (retry_fields-keeps s "password" _ refl refl).0,
)

pub to_closed_event-IsClean : (s : Session) → contains "password" (to_closed_event s) ≡ false
unfolding to_closed_event
to_closed_event-IsClean s = rw (set_text-keeps "error" "password" s.error_text _ refl)
