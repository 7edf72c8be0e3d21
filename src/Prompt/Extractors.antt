-- ===== src/Prompt/Extractors.antt =====
-- fallback/prompt/PromptExtractors.cpp
use noctalia_unofficial_auth.Base.{
  String, Bool, not, ◌&&◌, ◌||◌, Option, none, some, List, [], ◌∷◌, ◌++◌, ◌==◌, if◌then◌else◌,
  comparable_nat,
}
use noctalia_unofficial_auth.Text.{
  Text, newline, is_empty, trimmed, units, split, starts_with, has_text, same_text,
}
use noctalia_unofficial_auth.Json.{JsonObject, value, to_string}
use noctalia_unofficial_auth.Prompt.{TextFunctions, Pattern, quoted_command, path, unlock_target}
use noctalia_unofficial_auth.Prompt.Normalize.{
  normalize_detail_text, normalize_compare_text, unique_joined,
}

-- o.value(key).toString()
abbrev pub text_of : String → JsonObject → Text
text_of key o = units (to_string (value key o))

-- A text without a full stop at its end.
unfoldable pub chop_stop : Text → Text
chop_stop [] = []
chop_stop (c ∷ cs) = let rest = chop_stop cs in if is_empty cs && c == 46 then [] else c ∷ rest

module _ (q : TextFunctions) where
  abbrev trimmed_or_empty : Option Text → Text
  trimmed_or_empty none = []
  trimmed_or_empty (some captured) = trimmed q.is_space captured

  unfoldable pub capture_first : Text → Pattern → Text
  unfolding trimmed
  capture_first text pattern = trimmed_or_empty (q.capture pattern text)

  unfoldable pub is_template_unlock_line : Text → Text → Bool
  unfolding normalize_compare_text same_text has_text starts_with
  is_template_unlock_line line target =
      let normalized = normalize_compare_text q line in
      let wanted = normalize_compare_text q target in
      is_empty normalized
      || (not (is_empty wanted) && same_text normalized wanted)
      || (not (is_empty wanted)
          && has_text normalized (units "unlock")
          && has_text normalized wanted
          && (starts_with normalized (units "authenticate to unlock")
              || starts_with normalized (units "unlock")
              || starts_with normalized (units "use your password to unlock")
              || starts_with normalized (units "use your account password to unlock")))

  unfoldable pub extract_command_name : Text → Text
  unfolding capture_first
  extract_command_name message =
      let explicit = capture_first message quoted_command in
      let command = if is_empty explicit then capture_first message path else explicit in
      let name = q.file_name command in
      if is_empty command then [] else if is_empty name then command else name

  unfoldable pub extract_unlock_target : Text → Text
  unfolding normalize_detail_text capture_first chop_stop trimmed
  extract_unlock_target text =
      let normalized = normalize_detail_text q text in
      let target = capture_first normalized unlock_target in
      if is_empty normalized || is_empty target
      then []
      else trimmed q.is_space (chop_stop (trimmed q.is_space target))

  abbrev first_filled : Text → Text → Text
  first_filled x y = if is_empty x then y else x

  unfoldable pub extract_unlock_target_from_context : JsonObject → Text
  unfolding extract_unlock_target
  extract_unlock_target_from_context context =
      first_filled
        (first_filled (extract_unlock_target (text_of "keyringName" context))
          (extract_unlock_target (text_of "message" context)))
        (extract_unlock_target (text_of "description" context))

  -- The loop over the lines of one candidate.
  unfoldable pub detail_lines : Text → List Text → List Text
  unfolding is_template_unlock_line trimmed
  detail_lines target [] = []
  detail_lines target (raw ∷ lines) =
      let line = trimmed q.is_space raw in
      let rest = detail_lines target lines in
      if is_empty line || is_template_unlock_line line target then rest else line ∷ rest

  -- The loop over the candidates.
  unfoldable pub candidate_details : Text → List Text → List Text
  unfolding detail_lines
  candidate_details target [] = []
  candidate_details target (candidate ∷ candidates) =
      let rest = candidate_details target candidates in
      if is_empty candidate then rest else detail_lines target (split newline candidate) ++ rest

  unfoldable pub build_unlock_details : JsonObject → Text → Text
  unfolding candidate_details unique_joined normalize_detail_text
  build_unlock_details context target = unique_joined q (
      candidate_details target (
        normalize_detail_text q (text_of "description" context)
        ∷ normalize_detail_text q (text_of "message" context)
        ∷ normalize_detail_text q (text_of "keyringName" context)
        ∷ []))
