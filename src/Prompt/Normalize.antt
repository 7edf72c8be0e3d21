-- ===== src/Prompt/Normalize.antt =====
-- fallback/prompt/TextNormalize.cpp and PromptHeuristics.cpp
use noctalia_unofficial_auth.Base.{
  ℕ, ◌-◌, String, Bool, false, ◌||◌, Option, none, some, List, [], ◌∷◌, ◌++◌, map, if◌then◌else◌,
  ltb, leb,
}
use noctalia_unofficial_auth.Base.Lists.{length}
use noctalia_unofficial_auth.Text.{
  Text, newline, index_of, left, is_empty, trimmed, units, replace_unit, split, join, drop_empty,
  simplified, starts_with, has_text, same_text,
}
use noctalia_unofficial_auth.Prompt.{TextFunctions}

module _ (q : TextFunctions) where
  unfoldable pub normalize_detail_text : Text → Text
  unfolding join drop_empty simplified
  normalize_detail_text text =
      let lines = split newline (replace_unit 13 newline text) in
      join (newline ∷ []) (drop_empty (map (simplified q.is_space) lines))

  unfoldable pub normalize_compare_text : Text → Text
  unfolding normalize_detail_text
  normalize_compare_text text =
      let lower = q.to_lower (normalize_detail_text text) in
      simplified q.is_space
        (replace_unit 46 32 (replace_unit 44 32 (replace_unit 34 32 (replace_unit 96 32 lower))))

  unfoldable pub text_equivalent : Text → Text → Bool
  unfolding normalize_compare_text
  text_equivalent x y =
      let a = normalize_compare_text x in
      let b = normalize_compare_text y in
      if is_empty a || is_empty b
      then false
      else same_text a b || starts_with a b || starts_with b a

  abbrev up_to : Option ℕ → Text → Text
  up_to none text = text
  up_to (some i) text = left i text

  unfoldable pub first_meaningful_line : Text → Text
  unfolding normalize_detail_text index_of left
  first_meaningful_line text =
      let cleaned = normalize_detail_text text in
      if is_empty cleaned then [] else up_to (index_of newline cleaned) cleaned

  -- left of a negative number is the whole text.
  unfoldable pub trim_to_length : Text → ℕ → Text
  unfolding left trimmed
  trim_to_length text max_chars =
      if leb (length text) max_chars
      then text
      else trimmed q.is_space (if ltb max_chars 3 then text else left (max_chars - 3) text)
        ++ units "..."

  -- The inner loop of uniqueJoined.
  unfoldable pub is_duplicate : Text → List Text → Bool
  unfolding text_equivalent
  is_duplicate value [] = false
  is_duplicate value (existing ∷ rest) = text_equivalent existing value || is_duplicate value rest

  -- The outer loop, on what is kept so far.
  unfoldable pub keep_unique : List Text → List Text → List Text
  unfolding is_duplicate trimmed
  keep_unique filtered [] = filtered
  keep_unique filtered (value ∷ values) =
      let text = trimmed q.is_space value in
      if is_empty text || is_duplicate text filtered
      then keep_unique filtered values
      else keep_unique (filtered ++ text ∷ []) values

  unfoldable pub unique_joined : List Text → Text
  unfolding keep_unique
  unique_joined values = join (newline ∷ []) (keep_unique [] values)

  -- containsAnyTerm, on the text in lower case.
  unfoldable pub contains_any_term : List String → Text → Bool
  unfolding has_text
  contains_any_term [] lower = false
  contains_any_term (term ∷ terms) lower =
      has_text lower (units term) || contains_any_term terms lower

  unfoldable pub looks_like_fingerprint_prompt : Text → Bool
  unfolding contains_any_term
  looks_like_fingerprint_prompt text =
      contains_any_term
        ("fingerprint" ∷ "finger print" ∷ "fprint" ∷ "swipe" ∷ "scan your finger" ∷ [])
        (q.to_lower text)

  unfoldable pub looks_like_fido_prompt : Text → Bool
  unfolding contains_any_term
  looks_like_fido_prompt text =
      contains_any_term
        ("fido" ∷ "fido2" ∷ "webauthn" ∷ "security key" ∷ "yubikey" ∷ "hardware token"
          ∷ "user presence" ∷ [])
        (q.to_lower text)

  unfoldable pub looks_like_touch_prompt : Text → Bool
  unfolding contains_any_term
  looks_like_touch_prompt text =
      contains_any_term
        ("touch" ∷ "tap" ∷ "insert" ∷ "use your security key" ∷ "verify your identity" ∷ [])
        (q.to_lower text)
