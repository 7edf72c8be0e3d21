-- ===== src/LineLoop/Lines.antt =====
-- The complete lines of a text, and the loop over them.
use noctalia_unofficial_auth.Base.{
  ℕ, zero, suc, ◌≤◌, ◌<◌, ◌≡◌, refl, inl, inr, false, Option, none, some, List, [], ◌∷◌, ◌++◌, ◌==◌,
  if◌then◌else◌, Bool-cases, comparable_nat, arith,
}
use noctalia_unofficial_auth.Base.Lists.{length, drop}
use noctalia_unofficial_auth.Text.{Text, newline, index_of, left}
use noctalia_unofficial_auth.LineLoop.{process_lines}

-- A text by its newlines: the complete lines, each without its newline, and what follows the last.
abbrev pub begin_line : ℕ → List Text → List Text
begin_line c [] = []
begin_line c (line ∷ lines) = (c ∷ line) ∷ lines

unfoldable pub complete_lines : Text → List Text
complete_lines [] = []
complete_lines (c ∷ cs) =
    let lines = complete_lines cs in if c == newline then [] ∷ lines else begin_line c lines

unfoldable pub unfinished : Text → Text
unfolding complete_lines
unfinished [] = []
unfinished (c ∷ cs) =
    let rest = unfinished cs in
    if c == newline then rest else elim (complete_lines cs) [ [] ↦ c ∷ cs | line ∷ lines ↦ rest ]

-- What the loop's first round sees of a text.
abbrev Cuts : Text → Option ℕ → Type 0
Cuts cs none = (complete_lines cs ≡ []) × (unfinished cs ≡ cs)
Cuts cs (some i) =
    (complete_lines cs ≡ left i cs ∷ complete_lines (drop (suc i) cs))
    × (unfinished cs ≡ unfinished (drop (suc i) cs))
    × (length (drop (suc i) cs) < length cs)

index_of-Cuts : (cs : Text) → Cuts cs (index_of newline cs)
unfolding index_of left complete_lines unfinished
index_of-Cuts [] = (refl, refl)
index_of-Cuts (c ∷ cs) = elim (Bool-cases (c == newline)) [
  | inl e ↦ rw e (ground (arith, e), ground (arith, e), omega arith)
  | inr e ↦ later (index_of newline cs) refl (index_of-Cuts cs) e
]
  where
    later :
        (o : Option ℕ)
        → index_of newline cs ≡ o
        → Cuts cs o
        → (c == newline) ≡ false
        → Cuts (c ∷ cs) (index_of newline (c ∷ cs))
    later none o h e = rw (o, e) (ground (arith, e, h.0), ground (arith, e, h.0))
    later (some i) o h e =
        rw (o, e) (ground (arith, e, h.0), ground (arith, e, h.0, h.1), omega (arith, h.2))

module _ {ℓ} {S : Type ℓ} (body : Text → S → S) where
  -- The lines taken in their order.
  unfoldable pub take_all : List Text → S → S
  take_all [] a = a
  take_all (line ∷ lines) a = take_all lines (body line a)

  -- With fuel beyond the length of the buffer, the loop takes the buffer's complete lines in their
  -- order and leaves what follows the last newline.
  pub process_lines-eq :
      (fuel : ℕ) (buffer : Text) (a : S)
      → length buffer < fuel
      → process_lines body fuel buffer a ≡ (unfinished buffer, take_all (complete_lines buffer) a)
  unfolding process_lines take_all
  process_lines-eq zero buffer a h = absurd (omega arith)
  process_lines-eq (suc fuel) buffer a h =
      round (index_of newline buffer) refl (index_of-Cuts buffer)
        (λ i. process_lines-eq fuel (drop (suc i) buffer) (body (left i buffer) a))
    where
      round :
          (o : Option ℕ)
          → index_of newline buffer ≡ o
          → Cuts buffer o
          → ((i : ℕ)
              → length (drop (suc i) buffer) < fuel
              → process_lines body fuel (drop (suc i) buffer) (body (left i buffer) a) ≡ (
                unfinished (drop (suc i) buffer),
                take_all (complete_lines (drop (suc i) buffer)) (body (left i buffer) a),
              ))
          → process_lines body (suc fuel) buffer a
            ≡ (unfinished buffer, take_all (complete_lines buffer) a)
      round none e c again = rw (process_lines, e, c.0, c.1) refl
      round (some i) e c again = rw (process_lines, e, c.0, c.1) (again i (omega (arith, c.2)))

-- Two texts one after another.
pub complete_lines-append :
    (xs ys : Text)
    → complete_lines (xs ++ ys) ≡ complete_lines xs ++ complete_lines (unfinished xs ++ ys)
unfolding complete_lines unfinished
complete_lines-append [] ys = refl
complete_lines-append (x ∷ xs) ys = ground (arith, complete_lines-append xs ys)

pub unfinished-append : (xs ys : Text) → unfinished (xs ++ ys) ≡ unfinished (unfinished xs ++ ys)
unfolding unfinished
unfinished-append [] ys = refl
unfinished-append (x ∷ xs) ys = ground (arith, unfinished-append xs ys, complete_lines-append xs ys)

pub unfinished-le : (xs : Text) → length (unfinished xs) ≤ length xs
unfolding unfinished
unfinished-le [] = omega arith
unfinished-le (x ∷ xs) = ground (arith, unfinished-le xs)

-- What is unfinished holds no complete line.
pub complete_lines-unfinished : (xs : Text) → complete_lines (unfinished xs) ≡ []
unfolding complete_lines unfinished
complete_lines-unfinished [] = refl
complete_lines-unfinished (x ∷ xs) = ground (arith, complete_lines-unfinished xs)

pub unfinished-alone : (xs : Text) → complete_lines xs ≡ [] → unfinished xs ≡ xs
unfolding complete_lines unfinished
unfinished-alone [] h = refl
unfinished-alone (x ∷ xs) h = ground (arith, unfinished-alone xs)
