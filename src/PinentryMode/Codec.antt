-- ===== src/PinentryMode/Codec.antt =====
-- The percent codes of modes/pinentry.cpp.
use noctalia_unofficial_auth.Base.{
  ℕ, ◌≤◌, ◌↔◌, sym, ◌≡◌, ◌⊎◌, ap, ◌∙◌, refl, Bool, true, false, ◌||◌, Option, none, some, [], ◌∷◌,
  ◌++◌, ◌==◌, if◌then◌else◌, leb, comparable_nat, arith, Bool-cases, inl, inr,
}
use noctalia_unofficial_auth.Base.Lists.{All, length}
use noctalia_unofficial_auth.Text.{Text}

abbrev pub percent : ℕ
percent = 37

-- What the codes ask of QString.
pub record CodeFunctions : Type 0 where
  -- toInt(&ok, 16) of two units, as a unit; `none` is ok == false.
  pub hex_value : ℕ → ℕ → Option ℕ
  -- text.arg(c, 2, 16, QChar('0'))
  pub arg_hex : Text → ℕ → Text
  pub to_upper : Text → Text

-- QChar::toLatin1
abbrev to_latin1 : ℕ → ℕ
to_latin1 c = if leb c 255 then c else 0

abbrev pub is_coded : ℕ → Bool
is_coded c = c == percent || c == 10 || c == 13

-- "%%%1"
abbrev pub code_template : Text
code_template = 37 ∷ 37 ∷ 37 ∷ 49 ∷ []

module _ (q : CodeFunctions) where
  unfoldable pub assuan_decode : Text → Text
  assuan_decode [] = []
  assuan_decode (c ∷ []) = c ∷ []
  assuan_decode (c ∷ d ∷ []) = c ∷ d ∷ []
  assuan_decode (c ∷ d ∷ e ∷ rest) =
      let behind = assuan_decode rest in
      let literal = c ∷ assuan_decode (d ∷ e ∷ rest) in
      if c == percent
      then elim (q.hex_value d e) [ none ↦ literal | some code ↦ code ∷ behind ]
      else literal

  unfoldable pub assuan_encode : Text → Text
  assuan_encode [] = []
  assuan_encode (c ∷ rest) =
      (if is_coded (to_latin1 c)
        then q.to_upper (q.arg_hex code_template (to_latin1 c))
        else c ∷ [])
      ++ assuan_encode rest

  -- What QString documents of arg, toUpper and toInt, at the three codes.
  pub record IsHex : Type 0 where
    pub code_percent : q.to_upper (q.arg_hex code_template 37) ≡ 37 ∷ 37 ∷ 50 ∷ 53 ∷ []
    pub code_newline : q.to_upper (q.arg_hex code_template 10) ≡ 37 ∷ 37 ∷ 48 ∷ 65 ∷ []
    pub code_return : q.to_upper (q.arg_hex code_template 13) ≡ 37 ∷ 37 ∷ 48 ∷ 68 ∷ []
    pub value_percent : q.hex_value 50 53 ≡ some 37
    pub value_newline : q.hex_value 48 65 ≡ some 10
    pub value_return : q.hex_value 48 68 ≡ some 13
    pub no_value : (d : ℕ) → q.hex_value 37 d ≡ none

  -- A text with one more percent sign before each coded unit.
  unfoldable pub doubled : Text → Text
  doubled [] = []
  doubled (c ∷ cs) = if is_coded c then percent ∷ c ∷ doubled cs else c ∷ doubled cs

  assuan_decode-literal :
      (c : ℕ) (rest : Text)
      → (c == percent) ≡ false
      → assuan_decode (c ∷ rest) ≡ c ∷ assuan_decode rest
  unfolding assuan_decode
  assuan_decode-literal c [] h = refl
  assuan_decode-literal c (d ∷ []) h = refl
  assuan_decode-literal c (d ∷ e ∷ rest) h = rw h refl

  module _ (hex : IsHex) where
    -- The code of a unit, with the percent sign that stands before it.
    assuan_decode-code :
        (d e c : ℕ) (rest : Text)
        → q.hex_value d e ≡ some c
        → assuan_decode (37 ∷ 37 ∷ d ∷ e ∷ rest) ≡ 37 ∷ c ∷ assuan_decode rest
    unfolding assuan_decode
    assuan_decode-code d e c rest h = rw (hex.no_value d, h) refl

    is_coded-cases : (c : ℕ) → is_coded c ≡ true → (c ≡ 37) ⊎ ((c ≡ 10) ⊎ (c ≡ 13))
    is_coded-cases c h = ground arith

    assuan_encode-plain :
        (c : ℕ) (cs : Text) → is_coded c ≡ false → assuan_encode (c ∷ cs) ≡ c ∷ assuan_encode cs
    unfolding assuan_encode
    assuan_encode-plain c cs h =
        let latin : is_coded (to_latin1 c) ≡ false = ground arith in rw latin refl

    decode-encode : (text : Text) → assuan_decode (assuan_encode text) ≡ doubled text
    unfolding assuan_encode doubled assuan_decode
    decode-encode [] = refl
    decode-encode (c ∷ cs) = elim (Bool-cases (is_coded c)) [
      | inr plain ↦
          rw (assuan_encode-plain c cs plain, plain)
            (assuan_decode-literal c (assuan_encode cs) (ground arith)
              ∙ ap (◌∷◌ c) (decode-encode cs))
      | inl coded ↦ elim (is_coded-cases c coded) [
        | inl e ↦
            rw (e, hex.code_percent)
              (assuan_decode-code 50 53 37 (assuan_encode cs) hex.value_percent
                ∙ ap (λ t. 37 ∷ 37 ∷ t) (decode-encode cs))
        | inr (inl e) ↦
            rw (e, hex.code_newline)
              (assuan_decode-code 48 65 10 (assuan_encode cs) hex.value_newline
                ∙ ap (λ t. 37 ∷ 10 ∷ t) (decode-encode cs))
        | inr (inr e) ↦
            rw (e, hex.code_return)
              (assuan_decode-code 48 68 13 (assuan_encode cs) hex.value_return
                ∙ ap (λ t. 37 ∷ 13 ∷ t) (decode-encode cs))
      ]
    ]

    doubled-plain : (text : Text) → All (λ c. is_coded c ≡ false) text → doubled text ≡ text
    unfolding doubled
    doubled-plain [] h = refl
    doubled-plain (c ∷ cs) h = rw h.0 (ap (◌∷◌ c) (doubled-plain cs h.1))

    length-doubled : (text : Text) → length text ≤ length (doubled text)
    unfolding doubled
    length-doubled [] = omega arith
    length-doubled (c ∷ cs) = ground (arith, length-doubled cs)

    -- A text that doubling does not make longer has no coded unit.
    plain_of-length :
        (text : Text) → length (doubled text) ≤ length text → All (λ c. is_coded c ≡ false) text
    unfolding doubled
    plain_of-length [] h = tt
    plain_of-length (c ∷ cs) h = elim (Bool-cases (is_coded c)) [
      | inl e ↦ absurd (ground (arith, length-doubled cs))
      | inr e ↦ (e, plain_of-length cs (ground arith))
    ]

    -- Decoding what was encoded gives the text with one more percent sign before each percent sign,
    -- newline and carriage return. So the text comes back exactly when it holds none of these three.
    pub decode-encode_iff :
        (text : Text)
        → (assuan_decode (assuan_encode text) ≡ doubled text)
          × ((assuan_decode (assuan_encode text) ≡ text) ↔ All (λ c. is_coded c ≡ false) text)
    decode-encode_iff text = (
      decode-encode text,
      (
        λ back. plain_of-length text (
            let same : doubled text ≡ text = sym (decode-encode text) ∙ back in
            rw same (omega arith)),
        λ plain. decode-encode text ∙ doubled-plain text plain,
      ),
    )
