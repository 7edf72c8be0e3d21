-- ===== src/Prompt/Builder.antt =====
-- fallback/prompt/PromptModelBuilder.cpp
use noctalia_unofficial_auth.Base.{
  String, Bool, not, ◌&&◌, ◌||◌, List, [], ◌∷◌, ◌++◌, ◌==◌, if◌then◌else◌, comparable_string,
}
use noctalia_unofficial_auth.Text.{
  Text, newline, is_empty, trimmed, units, split, join, simplified, starts_with, has_text,
  same_text,
}
use noctalia_unofficial_auth.Json.{JsonObject, value, to_string, to_object}
use noctalia_unofficial_auth.Prompt.{
  TextFunctions, identity, key_id, key_type, creation_date, PromptIntent, generic, unlock,
  run_command, open_pgp, fingerprint, fido2, PromptDisplayModel,
}
use noctalia_unofficial_auth.Prompt.Normalize.{
  normalize_detail_text, text_equivalent, first_meaningful_line, trim_to_length,
  looks_like_fingerprint_prompt, looks_like_fido_prompt, looks_like_touch_prompt,
}
use noctalia_unofficial_auth.Prompt.Extractors.{
  text_of, capture_first, extract_command_name, extract_unlock_target_from_context,
  build_unlock_details,
}

-- The values that `build` names first.
pub record Facts : Type 0 where
  pub source : String
  pub context : JsonObject
  pub message : Text
  pub description : Text
  pub requestor_name : Text
  pub info_text : Text
  pub normalized_message : Text
  pub normalized_description : Text
  pub detail_text : Text
  pub command_name : Text
  pub unlock_target : Text
  pub fingerprint_hint : Bool
  pub fido_hint : Bool
  pub touch_hint : Bool

abbrev pub first_filled : Text → Text → Text
first_filled x y = if is_empty x then y else x

abbrev is_identity_line : Text → Bool
is_identity_line line =
    has_text line (34 ∷ []) && has_text line (60 ∷ []) && has_text line (62 ∷ [])

-- The lines but those that show an identity or a key.
unfoldable pub filter_lines : (Text → Bool) → List Text → List Text
filter_lines drops [] = []
filter_lines drops (line ∷ lines) =
    let rest = filter_lines drops lines in if drops line then rest else line ∷ rest

module _ (q : TextFunctions) where
  unfoldable pub is_low_signal_command : Text → Bool
  unfolding trimmed same_text
  is_low_signal_command name =
      let normalized = q.to_lower (trimmed q.is_space name) in
      is_empty normalized
      || same_text normalized (units "true")
      || same_text normalized (units "sh")
      || same_text normalized (units "bash")

  abbrev is_key_metadata_line : Text → Bool
  is_key_metadata_line line =
      let lower = q.to_lower line in
      (has_text lower (units " id ") || starts_with lower (units "id "))
      && has_text lower (units "created")

  unfoldable pub clean_identity : Text → Text
  unfolding simplified trimmed
  clean_identity text =
      trimmed q.is_space (q.remove_folded (units " (github)") (simplified q.is_space text))

  unfoldable pub facts_of : JsonObject → Facts
  unfolding normalize_detail_text trimmed extract_command_name extract_unlock_target_from_context
      looks_like_fingerprint_prompt looks_like_fido_prompt looks_like_touch_prompt
  facts_of event =
      let source = to_string (value "source" event) in
      let context = to_object (value "context" event) in
      let message = text_of "message" context in
      let description = text_of "description" context in
      let name = trimmed q.is_space (text_of "name" (to_object (value "requestor" context))) in
      let info = normalize_detail_text q (text_of "info" event) in
      let normalized_message = normalize_detail_text q message in
      let normalized_description = normalize_detail_text q description in
      let detail = q.to_lower (normalized_description ++ units " " ++ normalized_message) in
      let hints = q.to_lower (detail ++ units " " ++ info) in
      let found =
        if source == "polkit" || source == "keyring"
        then extract_unlock_target_from_context q context
        else [] in
      let by_finger = looks_like_fingerprint_prompt q hints in
      let by_key = looks_like_fido_prompt q hints in
      record {
        source = source;
        context = context;
        message = message;
        description = description;
        requestor_name = name;
        info_text = info;
        normalized_message = normalized_message;
        normalized_description = normalized_description;
        detail_text = detail;
        command_name = if source == "polkit" then extract_command_name q message else [];
        unlock_target = if source == "keyring" && is_empty found then name else found;
        fingerprint_hint = by_finger;
        fido_hint = by_key;
        touch_hint = by_finger || by_key || looks_like_touch_prompt q hints;
      }

  unfoldable pub intent_of : Facts → PromptIntent
  unfolding has_text
  intent_of f =
      if f.source == "polkit" && f.fingerprint_hint
      then fingerprint
      else if f.source == "polkit" && f.fido_hint
      then fido2
      else if f.source == "pinentry"
          && (has_text f.detail_text (units "openpgp") || has_text f.detail_text (units "gpg"))
      then open_pgp
      else if f.source == "polkit" && not (is_empty f.command_name)
      then run_command
      else if (f.source == "polkit" || f.source == "keyring") && not (is_empty f.unlock_target)
      then unlock
      else generic

  abbrev info_or : Text → Text → Text
  info_or info otherwise = if is_empty info then otherwise else first_meaningful_line q info

  unfoldable pub show_command : Facts → PromptDisplayModel → PromptDisplayModel
  unfolding is_low_signal_command first_meaningful_line
  show_command f m =
      let plain =
        if is_low_signal_command f.command_name
        then units "Administrative privileges required"
        else units "Run " ++ f.command_name ++ units " as superuser" in
      record m {
        title = units "Authorization Required";
        summary =
            first_filled (first_meaningful_line q f.normalized_description)
              (first_filled (first_meaningful_line q f.normalized_message) plain);
        details = [];
      }

  unfoldable pub pinentry_pieces : Text → List Text
  unfolding clean_identity capture_first trim_to_length
  pinentry_pieces reference =
      let named = clean_identity (capture_first q reference identity) in
      let key = capture_first q reference key_id in
      let kind = capture_first q reference key_type in
      let created = capture_first q reference creation_date in
      (if is_empty named
        then (if is_empty kind then [] else kind ∷ [])
        else trim_to_length q named 72 ∷ [])
      ++ (if is_empty key then [] else key ∷ [])
      ++ (if is_empty created then [] else (units "created " ++ created) ∷ [])

  abbrev join_or : Text → List Text → Text → Text
  join_or separator [] otherwise = otherwise
  join_or separator (piece ∷ pieces) otherwise = join separator (piece ∷ pieces)

  unfoldable pub show_pinentry : Facts → PromptIntent → PromptDisplayModel → PromptDisplayModel
  unfolding pinentry_pieces first_meaningful_line normalize_detail_text filter_lines join has_text
  show_pinentry f intent m =
      let reference = first_filled f.description f.message in
      let text = normalize_detail_text q reference in
      let kept =
        filter_lines (λ line. is_identity_line line || is_key_metadata_line line)
          (split newline text) in
      record m {
        title = elim intent [
          | open_pgp ↦ units "Unlock OpenPGP Key"
          | _ ↦
              if has_text f.detail_text (units "ssh")
              then units "Unlock SSH Key"
              else units "Authentication Required"
        ];
        summary =
            join_or (units "  •  ") (pinentry_pieces reference) (first_meaningful_line q reference);
        details = if is_empty text then [] else join_or (newline ∷ []) kept text;
      }

  unfoldable pub show_generic : Facts → PromptDisplayModel → PromptDisplayModel
  unfolding first_meaningful_line text_equivalent
  show_generic f m =
      let summary =
        first_filled (first_meaningful_line q f.normalized_message)
          (first_meaningful_line q f.normalized_description) in
      let shown = λ (text : Text). not (is_empty text) && not (text_equivalent q text summary) in
      record m {
        title =
            if f.source == "polkit"
            then units "Authorization Required"
            else units "Authentication Required";
        summary = summary;
        details =
            if shown f.normalized_description
            then f.normalized_description
            else if shown f.normalized_message
            then f.normalized_message
            else [];
      }

  -- The chain that sets title, summary and details; only pinentry comes to `open_pgp`.
  unfoldable pub show_intent : Facts → PromptIntent → PromptDisplayModel → PromptDisplayModel
  unfolding show_command show_pinentry show_generic build_unlock_details normalize_detail_text
  show_intent f unlock m = record m {
    title = units "Unlock " ++ f.unlock_target;
    summary = units "Use your password to unlock " ++ f.unlock_target;
    details = build_unlock_details q f.context f.unlock_target;
  }
  show_intent f fingerprint m = record m {
    title = units "Verify Fingerprint";
    summary = info_or f.info_text (units "Use your fingerprint sensor to continue");
    details = normalize_detail_text q f.description;
  }
  show_intent f fido2 m = record m {
    title = units "Use Security Key";
    summary = info_or f.info_text (units "Touch your security key to continue");
    details = normalize_detail_text q f.description;
  }
  show_intent f run_command m = show_command f m
  show_intent f open_pgp m =
      if f.source == "pinentry" then show_pinentry f open_pgp m else show_generic f m
  show_intent f generic m =
      if f.source == "pinentry" then show_pinentry f generic m else show_generic f m
