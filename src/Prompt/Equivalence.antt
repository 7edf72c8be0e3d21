-- ===== src/Prompt/Equivalence.antt =====
-- When two texts of a prompt say the same: the specification of textEquivalent.
use mathlib.Core.Bool.{false≢true}
use noctalia_unofficial_auth.Base.{
  ℕ, true, false, ◌||◌, ◌⊎◌, ◌↔◌, inl, inr, [], ◌∷◌, ◌++◌, ◌≡◌, ◌≢◌, refl, ◌∙◌, sym, ap, arith,
  Bool-cases, comparable_nat, eq_of_==, ==-refl, ◌==◌,
}
use noctalia_unofficial_auth.Text.{Text, is_empty, starts_with, same_text}
use noctalia_unofficial_auth.Prompt.{TextFunctions}
use noctalia_unofficial_auth.Prompt.Normalize.{normalize_compare_text, text_equivalent}

-- The second text begins the first one.
abbrev pub Begins : Text → Text → Type 0
Begins text pattern = (rest : Text) × (text ≡ pattern ++ rest)

cons_eq : (c d : ℕ) (cs ds : Text) → (c == d) ≡ true → cs ≡ ds → c ∷ cs ≡ d ∷ ds
cons_eq c d cs ds h k = ap (λ x. x ∷ cs) (eq_of_== c d h) ∙ ap (λ xs. d ∷ xs) k

Begins-cons :
    (c p : ℕ) (cs pattern : Text)
    → (c == p) ≡ true
    → Begins cs pattern
    → Begins (c ∷ cs) (p ∷ pattern)
Begins-cons c p cs pattern h (rest, e) = (rest, cons_eq c p cs (pattern ++ rest) h e)

starts_with-Begins : (text pattern : Text) → starts_with text pattern ≡ true → Begins text pattern
unfolding starts_with
starts_with-Begins text [] h = (text, refl)
starts_with-Begins [] (p ∷ pattern) h = absurd (false≢true h)
starts_with-Begins (c ∷ cs) (p ∷ pattern) h = elim (Bool-cases (c == p)) [
  | inl e ↦ Begins-cons c p cs pattern e (starts_with-Begins cs pattern (rw e at h))
  | inr e ↦ absurd (false≢true (rw e at h))
]

starts_with-append : (pattern rest : Text) → starts_with (pattern ++ rest) pattern ≡ true
unfolding starts_with
starts_with-append [] rest = refl
starts_with-append (p ∷ pattern) rest = rw (==-refl p) (starts_with-append pattern rest)

Begins-starts_with : (text pattern : Text) → Begins text pattern → starts_with text pattern ≡ true
Begins-starts_with text pattern (rest, e) = rw e (starts_with-append pattern rest)

same_text-Begins : (x y : Text) → same_text x y ≡ true → Begins x y
unfolding same_text
same_text-Begins [] [] h = ([], refl)
same_text-Begins [] (d ∷ ds) h = absurd (false≢true h)
same_text-Begins (c ∷ cs) [] h = absurd (false≢true h)
same_text-Begins (c ∷ cs) (d ∷ ds) h = elim (Bool-cases (c == d)) [
  | inl e ↦ Begins-cons c d cs ds e (same_text-Begins cs ds (rw e at h))
  | inr e ↦ absurd (false≢true (rw e at h))
]

is_empty_iff : (text : Text) → (is_empty text ≡ false) ↔ (text ≢ [])
is_empty_iff [] = (λ h e. absurd (false≢true (sym h)), λ h. absurd (h refl))
is_empty_iff (c ∷ cs) = (λ h e. cc e, λ h. refl)

module _ (q : TextFunctions) where
  -- Compared without case, punctuation and needless spaces, neither text is empty, and one begins
  -- the other.
  abbrev pub IsEquivalent : Text → Text → Type 0
  IsEquivalent x y =
      let a = normalize_compare_text q x in
      let b = normalize_compare_text q y in (a ≢ []) × (b ≢ []) × (Begins a b ⊎ Begins b a)

  one-Begins :
      (a b : Text)
      → (same_text a b || starts_with a b || starts_with b a) ≡ true
      → Begins a b ⊎ Begins b a
  one-Begins a b h = elim (Bool-cases (same_text a b)) [
    | inl e ↦ inl (same_text-Begins a b e)
    | inr e ↦ elim (Bool-cases (starts_with a b)) [
      | inl f ↦ inl (starts_with-Begins a b f)
      | inr f ↦ inr (starts_with-Begins b a (rw (e, f) at h))
    ]
  ]

  Begins-one :
      (a b : Text)
      → Begins a b ⊎ Begins b a
      → (same_text a b || starts_with a b || starts_with b a) ≡ true
  Begins-one a b (inl h) = ground (arith, Begins-starts_with a b h)
  Begins-one a b (inr h) = ground (arith, Begins-starts_with b a h)

  pub text_equivalent_iff : (x y : Text) → (text_equivalent q x y ≡ true) ↔ IsEquivalent x y
  unfolding text_equivalent
  text_equivalent_iff x y =
      let a = normalize_compare_text q x in
      let b = normalize_compare_text q y in
      (
        λ h. elim (Bool-cases (is_empty a)) [
          | inl e ↦ absurd (false≢true (rw e at h))
          | inr e ↦ elim (Bool-cases (is_empty b)) [
            | inl f ↦ absurd (false≢true (rw (e, f) at h))
            | inr f ↦ ((is_empty_iff a).0 e, (is_empty_iff b).0 f, one-Begins a b (rw (e, f) at h))
          ]
        ],
        λ (m, n, k). rw ((is_empty_iff a).1 m, (is_empty_iff b).1 n) (Begins-one a b k),
      )
