-- ===== src/Prompt/Terms.antt =====
-- The terms that announce a fingerprint, a security key or a touch.
use noctalia_unofficial_auth.Base.{String, Bool, false, ◌||◌, List, [], ◌∷◌, ◌++◌, ◌≡◌, refl, arith}
use noctalia_unofficial_auth.Text.{Text, units, has_text}
use noctalia_unofficial_auth.Json.{JsonObject, value, to_string, to_object}
use noctalia_unofficial_auth.Prompt.{TextFunctions}
use noctalia_unofficial_auth.Prompt.Normalize.{
  normalize_detail_text, contains_any_term, looks_like_fingerprint_prompt, looks_like_fido_prompt,
  looks_like_touch_prompt,
}
use noctalia_unofficial_auth.Prompt.Builder.{facts_of}

abbrev pub hint_terms : List String
hint_terms =
    "fingerprint" ∷ "finger print" ∷ "fprint" ∷ "swipe" ∷ "scan your finger" ∷ "fido" ∷ "fido2"
    ∷ "webauthn" ∷ "security key" ∷ "yubikey" ∷ "hardware token" ∷ "user presence" ∷ "touch" ∷ "tap"
    ∷ "insert" ∷ "use your security key" ∷ "verify your identity" ∷ []

-- The text has one of the terms.
abbrev pub names_one : List String → Text → Bool
names_one [] text = false
names_one (term ∷ terms) text = has_text text (units term) || names_one terms text

module _ (q : TextFunctions) where
  -- What the prompt says: the description, the message and the information of the event.
  abbrev pub said_by : JsonObject → Text
  said_by event =
      let context = to_object (value "context" event) in
      let text = λ (key : String) (o : JsonObject).
        normalize_detail_text q (units (to_string (value key o))) in
      let prompt = q.to_lower (text "description" context ++ units " " ++ text "message" context) in
      q.to_lower (q.to_lower (prompt ++ units " " ++ text "info" event))

  contains_any_term_lem :
      (terms : List String) (text : Text) → contains_any_term q terms text ≡ names_one terms text
  unfolding contains_any_term
  contains_any_term_lem [] text = refl
  contains_any_term_lem (term ∷ terms) text = ground (arith, contains_any_term_lem terms text)

  names_one-append :
      (xs ys : List String) (text : Text)
      → names_one (xs ++ ys) text ≡ (names_one xs text || names_one ys text)
  names_one-append [] ys text = refl
  names_one-append (x ∷ xs) ys text = ground (arith, names_one-append xs ys text)

  announced :
      (text : Text)
      → (looks_like_fingerprint_prompt q text
          || looks_like_fido_prompt q text
          || looks_like_touch_prompt q text)
        ≡ names_one hint_terms (q.to_lower text)
  unfolding looks_like_fingerprint_prompt looks_like_fido_prompt looks_like_touch_prompt
      contains_any_term
  announced text = ground arith

  -- The hint that the model is built with is the mention of one of the terms.
  pub touch_hint_lem :
      (event : JsonObject)
      → ((facts_of q event).source ≡ to_string (value "source" event))
        × ((facts_of q event).touch_hint ≡ names_one hint_terms (said_by event))
  unfolding facts_of
  touch_hint_lem event = (refl, announced _)
