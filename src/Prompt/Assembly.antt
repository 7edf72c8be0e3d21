-- ===== src/Prompt/Assembly.antt =====
-- The second half of PromptModelBuilder::build, and the whole of it.
use noctalia_unofficial_auth.Base.{
  ℕ, suc, Bool, true, false, not, ◌&&◌, ◌||◌, Option, none, some, List, [], ◌∷◌, ◌++◌, ◌==◌,
  if◌then◌else◌, comparable_string,
}
use noctalia_unofficial_auth.Base.Lists.{drop}
use noctalia_unofficial_auth.Text.{
  Text, newline, index_of, left, is_empty, trimmed, units, split, join,
}
use noctalia_unofficial_auth.Json.{JsonObject}
use noctalia_unofficial_auth.Prompt.{
  TextFunctions, PromptIntent, unlock, PromptDisplayModel, new_model,
}
use noctalia_unofficial_auth.Prompt.Normalize.{
  normalize_detail_text, text_equivalent, unique_joined,
}
use noctalia_unofficial_auth.Prompt.Extractors.{text_of}
use noctalia_unofficial_auth.Prompt.Builder.{Facts, facts_of, intent_of, show_intent, first_filled}

abbrev pub is_unlock : PromptIntent → Bool
is_unlock unlock = true
is_unlock _ = false

module _ (q : TextFunctions) where
  unfoldable pub add_requestor : Facts → PromptDisplayModel → PromptDisplayModel
  add_requestor f m =
      if is_empty f.requestor_name
        || (is_unlock m.intent && q.same_folded f.requestor_name f.unlock_target)
      then m
      else record m { requestor = units "Requested by " ++ f.requestor_name }

  abbrev pub split_details : Option ℕ → Text → PromptDisplayModel → PromptDisplayModel
  split_details none text m = record m { summary = text; details = [] }
  split_details (some i) text m = record m {
    summary = trimmed q.is_space (left i text);
    details = trimmed q.is_space (drop (suc i) text);
  }

  unfoldable pub summary_from_details : PromptDisplayModel → PromptDisplayModel
  unfolding normalize_detail_text index_of left trimmed
  summary_from_details m =
      let text = normalize_detail_text q m.details in
      if is_empty m.summary && not (is_empty m.details)
      then split_details (index_of newline text) text m
      else m

  abbrev pub without_first : List Text → PromptDisplayModel → PromptDisplayModel
  without_first [] m = m
  without_first (line ∷ lines) m =
      if text_equivalent q line m.summary
      then record m { details = trimmed q.is_space (join (newline ∷ []) lines) }
      else m

  unfoldable pub drop_repeated : PromptDisplayModel → PromptDisplayModel
  unfolding normalize_detail_text text_equivalent join trimmed
  drop_repeated m =
      let n = without_first (split newline (normalize_detail_text q m.details)) m in
      if is_empty m.summary || is_empty m.details
      then m
      else if text_equivalent q n.summary n.details
      then record n { details = [] }
      else n

  unfoldable pub add_info : Text → PromptDisplayModel → PromptDisplayModel
  unfolding text_equivalent unique_joined
  add_info info m =
      if is_empty info || text_equivalent q info m.summary || text_equivalent q info m.details
      then m
      else record m {
        details = if is_empty m.details then info else unique_joined q (m.details ∷ info ∷ []);
      }

  abbrev passphrase_in : Text → Bool
  passphrase_in prompt = q.contains_folded prompt (units "passphrase")

  -- The prompt, whether it asks for a passphrase, and whether an empty response is allowed.
  unfoldable pub add_prompt : Facts → PromptDisplayModel → PromptDisplayModel
  unfolding trimmed
  add_prompt f m =
      if f.source == "pinentry"
      then record m {
        prompt =
            first_filled (trimmed q.is_space (text_of "message" f.context)) (units "Passphrase:");
        passphrase_prompt = true;
      }
      else if f.source == "polkit" && f.touch_hint
      then record m {
        prompt = units "Press Enter to continue (or wait)";
        allow_empty_response = true;
        passphrase_prompt = false;
      }
      else record m {
        prompt = units "Password:";
        passphrase_prompt = passphrase_in (units "Password:");
      }

  unfoldable pub build : JsonObject → PromptDisplayModel
  unfolding facts_of intent_of show_intent add_requestor summary_from_details drop_repeated add_info
      add_prompt
  build event =
      let f = facts_of q event in
      let intent = intent_of q f in
      let shown = show_intent q f intent (record new_model { intent = intent }) in
      add_prompt f
        (add_info f.info_text (drop_repeated (summary_from_details (add_requestor f shown))))
