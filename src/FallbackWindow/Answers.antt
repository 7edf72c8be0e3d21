-- ===== src/FallbackWindow/Answers.antt =====
-- The answers that the window sends.
use noctalia_unofficial_auth.Base.{
  Bool, true, false, not, ◌&&◌, ◌⊎◌, inl, inr, [], ◌∷◌, ◌==◌, ◌≡◌, refl, if◌then◌else◌, if-test,
  comparable_string,
}
use noctalia_unofficial_auth.Text.{Text, is_empty}
use noctalia_unofficial_auth.Prompt.{TextFunctions}
use noctalia_unofficial_auth.FallbackWindow.{
  FallbackWindow, response, answer_of, please_enter, set_error_text, submit, click_submit,
}

-- What an attempt to submit does: it sends nothing, or it sends one answer to the session that is
-- shown, which is not empty unless that is allowed, leaves no secret in the input, and is busy then.
abbrev pub Submits : FallbackWindow → FallbackWindow → Type 0
Submits w t =
    (t.sent ≡ w.sent)
    ⊎ ((t.sent ≡ response w.current_session_id (answer_of w) ∷ w.sent)
        × (w.busy ≡ false)
        × ((w.current_session_id == "") ≡ false)
        × ((not w.confirm_only && not w.allow_empty_response && is_empty w.input) ≡ false)
        × ((not w.confirm_only && not (is_empty t.input)) ≡ false)
        × (t.busy ≡ true))

module _ (q : TextFunctions) (w : FallbackWindow) where
  abbrev Once : FallbackWindow → Type 0
  Once t = Submits w t × (click_submit q t ≡ t)

  -- However often the user submits, at most one answer is sent: the first attempt sends nothing, or
  -- one answer to the session that is shown, from a window that is not busy, not empty unless that is
  -- allowed, with the input empty afterwards; and a second attempt changes nothing.
  pub click_submit_once :
      Submits w (click_submit q w) × (click_submit q (click_submit q w) ≡ click_submit q w)
  unfolding click_submit submit
  click_submit_once =
      if-test Once w.busy w (submit q w) (λ b. (inl refl, rw b refl))
        λ b.
          if-test Once (w.current_session_id == "") w _ (λ e. (inl refl, rw (b, e) refl))
            λ e.
              if-test Once (not w.confirm_only && not w.allow_empty_response && is_empty w.input)
                (set_error_text (please_enter q w.prompt) w) _ (λ m. (inl refl, rw (b, e, m) refl))
                (λ m. (inr (refl, b, e, m, emptied w.confirm_only w.input, refl), refl))
    where
      emptied :
          (c : Bool) (input : Text) → (not c && not (is_empty (if c then input else []))) ≡ false
      emptied true input = refl
      emptied false input = refl
