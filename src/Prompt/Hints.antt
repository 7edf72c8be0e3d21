-- ===== src/Prompt/Hints.antt =====
-- The prompt of a model, and the response that it allows.
use noctalia_unofficial_auth.Base.{
  ℕ, Bool, false, not, ◌&&◌, ◌||◌, List, [], ◌∷◌, ◌==◌, ◌≡◌, refl, sym, if-test, comparable_string,
  Option, none, some, Bool-cases, inl, inr, eq_of_==,
}
use noctalia_unofficial_auth.Text.{Text, newline, index_of, is_empty, split}
use noctalia_unofficial_auth.Json.{JsonObject, value, to_string}
use noctalia_unofficial_auth.Prompt.{
  TextFunctions, PromptIntent, generic, unlock, run_command, open_pgp, fingerprint, fido2,
  PromptDisplayModel, new_model,
}
use noctalia_unofficial_auth.Prompt.Normalize.{normalize_detail_text, text_equivalent}
use noctalia_unofficial_auth.Prompt.Builder.{
  Facts, facts_of, intent_of, show_intent, show_command, show_pinentry, show_generic,
}
use noctalia_unofficial_auth.Prompt.Terms.{hint_terms, names_one, said_by, touch_hint_lem}
use noctalia_unofficial_auth.Prompt.Assembly.{
  is_unlock, split_details, without_first, add_requestor, summary_from_details, drop_repeated,
  add_info, add_prompt, build,
}

-- An empty response has not been allowed.
unfoldable IsStrict : PromptDisplayModel → Type 0
IsStrict m = m.allow_empty_response ≡ false

module _ (q : TextFunctions) where
  show_intent-IsStrict :
      (f : Facts) (intent : PromptIntent) (m : PromptDisplayModel)
      → IsStrict m
      → IsStrict (show_intent q f intent m)
  unfolding show_intent show_command show_pinentry show_generic IsStrict
  show_intent-IsStrict f unlock m h = h
  show_intent-IsStrict f fingerprint m h = h
  show_intent-IsStrict f fido2 m h = h
  show_intent-IsStrict f run_command m h = h
  show_intent-IsStrict f open_pgp m h =
      if-test IsStrict (f.source == "pinentry") (show_pinentry q f open_pgp m) (show_generic q f m)
        (λ e. h) (λ e. h)
  show_intent-IsStrict f generic m h =
      if-test IsStrict (f.source == "pinentry") (show_pinentry q f generic m) (show_generic q f m)
        (λ e. h) (λ e. h)

  add_requestor-IsStrict :
      (f : Facts) (m : PromptDisplayModel) → IsStrict m → IsStrict (add_requestor q f m)
  unfolding add_requestor IsStrict
  add_requestor-IsStrict f m h =
      if-test IsStrict
        (is_empty f.requestor_name
          || (is_unlock m.intent && q.same_folded f.requestor_name f.unlock_target))
        m _ (λ e. h) (λ e. h)

  split_details-IsStrict :
      (i : Option ℕ) (text : Text) (m : PromptDisplayModel)
      → IsStrict m
      → IsStrict (split_details q i text m)
  unfolding IsStrict
  split_details-IsStrict none text m h = h
  split_details-IsStrict (some i) text m h = h

  summary_from_details-IsStrict :
      (m : PromptDisplayModel) → IsStrict m → IsStrict (summary_from_details q m)
  unfolding summary_from_details IsStrict
  summary_from_details-IsStrict m h =
      let text = normalize_detail_text q m.details in
      if-test IsStrict (is_empty m.summary && not (is_empty m.details))
        (split_details q (index_of newline text) text m) m
        (λ e. split_details-IsStrict (index_of newline text) text m h) (λ e. h)

  without_first-IsStrict :
      (lines : List Text) (m : PromptDisplayModel) → IsStrict m → IsStrict (without_first q lines m)
  unfolding IsStrict
  without_first-IsStrict [] m h = h
  without_first-IsStrict (line ∷ lines) m h =
      if-test IsStrict (text_equivalent q line m.summary) _ m (λ e. h) (λ e. h)

  drop_repeated-IsStrict : (m : PromptDisplayModel) → IsStrict m → IsStrict (drop_repeated q m)
  unfolding drop_repeated IsStrict
  drop_repeated-IsStrict m h =
      let lines = split newline (normalize_detail_text q m.details) in
      let n = without_first q lines m in
      let k = without_first-IsStrict lines m h in
      if-test IsStrict (is_empty m.summary || is_empty m.details) m _ (λ e. h)
        λ e.
          if-test IsStrict (text_equivalent q n.summary n.details) (record n { details = [] }) n
            (λ e. k) (λ e. k)

  add_info-IsStrict :
      (info : Text) (m : PromptDisplayModel) → IsStrict m → IsStrict (add_info q info m)
  unfolding add_info IsStrict
  add_info-IsStrict info m h =
      if-test IsStrict
        (is_empty info || text_equivalent q info m.summary || text_equivalent q info m.details) m _
        (λ e. h) (λ e. h)

  -- An empty response is allowed exactly if `touch`, never at a prompt for a passphrase; and the
  -- prompt of pinentry is one for a passphrase.
  abbrev pub Allows : Bool → Bool → PromptDisplayModel → Type 0
  Allows touch pinentry m =
      (m.allow_empty_response ≡ touch)
      × ((m.allow_empty_response && m.passphrase_prompt) ≡ false)
      × ((pinentry && not m.passphrase_prompt) ≡ false)

  add_prompt-Allows :
      (f : Facts) (m : PromptDisplayModel)
      → IsStrict m
      → Allows (f.source == "polkit" && f.touch_hint) (f.source == "pinentry") (add_prompt q f m)
  unfolding add_prompt IsStrict
  add_prompt-Allows f m h = elim (Bool-cases (f.source == "pinentry")) [
    | inl e ↦
        let here : f.source ≡ "pinentry" = eq_of_== f.source "pinentry" e in
        let other : (f.source == "polkit") ≡ false = rw here refl in
        rw (e, other, h) (refl, refl, refl)
    | inr e ↦ elim (Bool-cases (f.source == "polkit" && f.touch_hint)) [
      | inl t ↦ rw (e, t) (refl, refl, refl)
      | inr t ↦ rw (e, t, h) (refl, refl, refl)
    ]
  ]

  allowed :
      (event : JsonObject)
      → let f = facts_of q event in
        Allows (f.source == "polkit" && f.touch_hint) (f.source == "pinentry") (build q event)
  unfolding build IsStrict
  allowed event =
      let f = facts_of q event in
      let intent = intent_of q f in
      let start = record new_model { intent = intent } in
      let shown = show_intent q f intent start in
      let named = add_requestor q f shown in
      let split = summary_from_details q named in
      let once = drop_repeated q split in
      add_prompt-Allows f (add_info q f.info_text once) (
        add_info-IsStrict f.info_text once (
          drop_repeated-IsStrict split (
            summary_from_details-IsStrict named
              (add_requestor-IsStrict f shown (show_intent-IsStrict f intent start refl)))))

  pub build-Allows :
      (event : JsonObject)
      → let source = to_string (value "source" event) in
        Allows
          (source == "polkit" && names_one hint_terms (said_by q event))
          (source == "pinentry")
          (build q event)
  build-Allows event =
      let (same, announced) = touch_hint_lem q event in rw (sym same, sym announced) (allowed event)
