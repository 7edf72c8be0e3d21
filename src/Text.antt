-- ===== src/Text.antt =====
-- The operations of QByteArray and QString that the code uses, on a text as the list of its bytes or
-- of its units of UTF-16.
use Prim.Native.Char.{code}
use Prim.Native.Nat.{◌/◌, ◌%◌}
use noctalia_unofficial_auth.Base.{
  ◌+◌, ◌-◌, String, ◌||◌, ◌++◌, map, ltb, ℕ, zero, suc, Bool, true, false, ◌&&◌, Option, none, some,
  List, [], ◌∷◌, ◌==◌, if◌then◌else◌, comparable_nat,
}

abbrev pub Text : Type 0
Text = List ℕ

abbrev pub newline : ℕ
newline = 10

-- indexOf; `none` is -1.
unfoldable pub index_of : ℕ → Text → Option ℕ
index_of b [] = none
index_of b (c ∷ cs) =
    if c == b then some 0 else elim (index_of b cs) [ none ↦ none | some i ↦ some (suc i) ]

-- left(n)
unfoldable pub left : ℕ → Text → Text
left zero cs = []
left (suc n) [] = []
left (suc n) (c ∷ cs) = c ∷ left n cs

abbrev pub is_empty : Text → Bool
is_empty [] = true
is_empty (c ∷ cs) = false

module _ (is_space : ℕ → Bool) where
  unfoldable pub trim_start : Text → Text
  trim_start [] = []
  trim_start (c ∷ cs) = let rest = trim_start cs in if is_space c then rest else c ∷ cs

  unfoldable pub trim_end : Text → Text
  trim_end [] = []
  trim_end (c ∷ cs) = let rest = trim_end cs in if is_empty rest && is_space c then [] else c ∷ rest

  -- trimmed
  unfoldable pub trimmed : Text → Text
  unfolding trim_start trim_end
  trimmed text = trim_end (trim_start text)

-- The units of UTF-16 of a text.
abbrev utf16 : ℕ → Text
utf16 c =
    if ltb c 65536 then c ∷ [] else (55296 + (c - 65536) / 1024) ∷ (56320 + (c - 65536) % 1024) ∷ []

abbrev pub units : String → Text
units String.[] = []
units (String.◌∷◌ c s) = utf16 (code c) ++ units s

-- replace(a, b) for two units.
abbrev pub replace_unit : ℕ → ℕ → Text → Text
replace_unit a b = map (λ c. if c == a then b else c)

abbrev begin_part : ℕ → List Text → List Text
begin_part c [] = (c ∷ []) ∷ []
begin_part c (part ∷ parts) = (c ∷ part) ∷ parts

-- split at the units that pass a test.
unfoldable pub split_by : (ℕ → Bool) → Text → List Text
split_by test [] = [] ∷ []
split_by test (c ∷ cs) =
    let parts = split_by test cs in if test c then [] ∷ parts else begin_part c parts

abbrev pub split : ℕ → Text → List Text
split separator = split_by (λ c. c == separator)

-- QStringList::join
unfoldable pub join : Text → List Text → Text
join separator [] = []
join separator (part ∷ []) = part
join separator (part ∷ (next ∷ parts)) = part ++ separator ++ join separator (next ∷ parts)

unfoldable pub drop_empty : List Text → List Text
drop_empty [] = []
drop_empty (part ∷ parts) =
    let rest = drop_empty parts in if is_empty part then rest else part ∷ rest

-- simplified: trimmed, and each run of spaces inside as one space.
unfoldable pub simplified : (ℕ → Bool) → Text → Text
unfolding split_by join drop_empty
simplified is_space text = join (32 ∷ []) (drop_empty (split_by is_space text))

unfoldable pub starts_with : Text → Text → Bool
starts_with text [] = true
starts_with [] (p ∷ pattern) = false
starts_with (c ∷ cs) (p ∷ pattern) = c == p && starts_with cs pattern

-- contains
unfoldable pub has_text : Text → Text → Bool
unfolding starts_with
has_text [] pattern = is_empty pattern
has_text (c ∷ cs) pattern = starts_with (c ∷ cs) pattern || has_text cs pattern

unfoldable pub same_text : Text → Text → Bool
same_text [] [] = true
same_text [] (d ∷ ds) = false
same_text (c ∷ cs) [] = false
same_text (c ∷ cs) (d ∷ ds) = c == d && same_text cs ds
