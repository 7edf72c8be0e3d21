-- ===== src/Prompt/Unique.antt =====
-- The texts that uniqueJoined keeps.
use mathlib.Core.Bool.{false≢true}
use noctalia_unofficial_auth.Base.{
  true, false, ◌⊎◌, inl, inr, List, [], ◌∷◌, ◌++◌, ◌≡◌, ◌≢◌, map, refl, ◌∙◌, sym, append_assoc,
  append-nil, subst, Bool-cases,
}
use noctalia_unofficial_auth.Base.Lists.{All}
use noctalia_unofficial_auth.Text.{Text, is_empty, trimmed}
use noctalia_unofficial_auth.Prompt.{TextFunctions}
use noctalia_unofficial_auth.Prompt.Normalize.{is_duplicate, keep_unique, text_equivalent}
use noctalia_unofficial_auth.Prompt.Equivalence.{IsEquivalent, text_equivalent_iff}

empty_text : (text : Text) → is_empty text ≡ true → text ≡ []
empty_text [] h = refl
empty_text (c ∷ cs) h = absurd (false≢true h)

filled_text : (text : Text) → is_empty text ≡ false → text ≢ []
filled_text [] h e = absurd (false≢true (sym h))
filled_text (c ∷ cs) h e = cc e

module _ (q : TextFunctions) where
  -- No text is empty, and none is equivalent to one that stands before it.
  abbrev pub IsUnique : List Text → List Text → Type 0
  IsUnique before [] = Unit
  IsUnique before (text ∷ texts) =
      (text ≢ [])
      × All (λ earlier. IsEquivalent q earlier text → ⊥) before
      × IsUnique (before ++ text ∷ []) texts

  abbrev pub Stands : Text → List Text → Type 0
  Stands text [] = ⊥
  Stands text (kept ∷ rest) = (kept ≡ text) ⊎ Stands text rest

  abbrev pub Repeats : Text → List Text → Type 0
  Repeats text [] = ⊥
  Repeats text (kept ∷ rest) = IsEquivalent q kept text ⊎ Repeats text rest

  -- Every text is a value after trimming.
  abbrev pub IsFrom : List Text → List Text → Type 0
  IsFrom values = All (λ text. Stands text (map (trimmed q.is_space) values))

  IsFrom-later :
      (value : Text) (values texts : List Text)
      → IsFrom values texts
      → IsFrom (value ∷ values) texts
  IsFrom-later value values [] h = tt
  IsFrom-later value values (x ∷ texts) h = (inr h.0, IsFrom-later value values texts h.1)

  -- What is left of a value after trimming is empty, equivalent to a kept text, or itself kept.
  abbrev pub IsCovered : List Text → Text → Type 0
  IsCovered kept value =
      (trimmed q.is_space value ≡ [])
      ⊎ (Repeats (trimmed q.is_space value) kept ⊎ Stands (trimmed q.is_space value) kept)

  Repeats-append :
      (text : Text) (kept more : List Text) → Repeats text kept → Repeats text (kept ++ more)
  Repeats-append text [] more h = absurd h
  Repeats-append text (x ∷ kept) more (inl h) = inl h
  Repeats-append text (x ∷ kept) more (inr h) = inr (Repeats-append text kept more h)

  is_duplicate-Repeats :
      (text : Text) (kept : List Text) → is_duplicate q text kept ≡ true → Repeats text kept
  unfolding is_duplicate
  is_duplicate-Repeats text [] h = absurd (false≢true h)
  is_duplicate-Repeats text (x ∷ kept) h = elim (Bool-cases (text_equivalent q x text)) [
    | inl e ↦ inl ((text_equivalent_iff q x text).0 e)
    | inr e ↦ inr (is_duplicate-Repeats text kept (rw e at h))
  ]

  is_duplicate-new :
      (text : Text) (kept : List Text)
      → is_duplicate q text kept ≡ false
      → All (λ earlier. IsEquivalent q earlier text → ⊥) kept
  unfolding is_duplicate
  is_duplicate-new text [] h = tt
  is_duplicate-new text (x ∷ kept) h = elim (Bool-cases (text_equivalent q x text)) [
    | inl e ↦ absurd (false≢true (sym (rw e at h)))
    | inr e ↦ (
      λ same. false≢true (sym e ∙ (text_equivalent_iff q x text).1 same),
      is_duplicate-new text kept (rw e at h),
    )
  ]

  Stands-last : (text : Text) (kept more : List Text) → Stands text (kept ++ (text ∷ more))
  Stands-last text [] more = inl refl
  Stands-last text (x ∷ kept) more = inr (Stands-last text kept more)

  -- What `keep_unique` adds to the kept texts.
  record Added (kept values : List Text) : Type 0 where
    added : List Text
    all_kept : keep_unique q kept values ≡ kept ++ added
    unique : IsUnique kept added
    from : IsFrom values added
    covered : All (IsCovered (kept ++ added)) values

  keep_unique-Added : (values kept : List Text) → Added kept values
  unfolding keep_unique
  keep_unique-Added [] kept = record {
    added = [];
    all_kept = sym (append-nil kept);
    unique = tt;
    from = tt;
    covered = tt;
  }
  keep_unique-Added (value ∷ values) kept =
      let text = trimmed q.is_space value in
      let dropped = keep_unique-Added values kept in
      let grown = keep_unique-Added values (kept ++ text ∷ []) in
      elim (Bool-cases (is_empty text)) [
        | inl e ↦ record {
          added = dropped.added;
          all_kept = rw e dropped.all_kept;
          unique = dropped.unique;
          from = IsFrom-later value values dropped.added dropped.from;
          covered = (inl (empty_text text e), dropped.covered);
        }
        | inr e ↦ elim (Bool-cases (is_duplicate q text kept)) [
          | inl d ↦ record {
            added = dropped.added;
            all_kept = rw (e, d) dropped.all_kept;
            unique = dropped.unique;
            from = IsFrom-later value values dropped.added dropped.from;
            covered = (
              inr (inl (Repeats-append text kept dropped.added (is_duplicate-Repeats text kept d))),
              dropped.covered,
            );
          }
          | inr d ↦
              let all : (kept ++ text ∷ []) ++ grown.added ≡ kept ++ (text ∷ grown.added) =
                append_assoc kept (text ∷ []) grown.added in
              record {
                added = text ∷ grown.added;
                all_kept = rw (e, d) (grown.all_kept ∙ all);
                unique = (filled_text text e, is_duplicate-new text kept d, grown.unique);
                from = (inl refl, IsFrom-later value values grown.added grown.from);
                covered = (
                  inr (inr (Stands-last text kept grown.added)),
                  subst (λ l. All (IsCovered l) values) all grown.covered,
                );
              }
        ]
      ]

  pub keep_unique-IsUnique :
      (values : List Text)
      → IsUnique [] (keep_unique q [] values)
        × IsFrom values (keep_unique q [] values)
        × All (IsCovered (keep_unique q [] values)) values
  keep_unique-IsUnique values =
      let a = keep_unique-Added values [] in rw a.all_kept (a.unique, a.from, a.covered)
