-- ===== src/Base/Table.antt =====
-- QHash, QMap and unordered_map as association lists; the order of the list is the order of
-- iteration, which the containers leave open.
use mathlib.Core.Path.{◌≡◌, refl}
use mathlib.Core.Bool.{Bool, true, false}
use mathlib.Core.Option.{Option, none, some}
use mathlib.Core.List.{List, [], ◌∷◌}
use native.Mathlib.Omega.{arith}
use noctalia_unofficial_auth.Base.Tests.{
  Comparable, ◌==◌, if◌then◌else◌, is_some, Bool-cases, ==-refl, eq_of_==,
}

abbrev pub Table {ℓ κ} : Type ℓ → Type κ → Type (ℓ ⊔ κ)
Table K V = List (K × V)

abbrev pub keep_if {ℓ} : {V : Type ℓ} → (V → Bool) → Option V → Option V
keep_if test none = none
keep_if test (some v) = if test v then some v else none

module _ {ℓ κ} {K : Type ℓ} {V : Type κ} ⦃e : Comparable K⦄ where
  unfoldable pub remove : K → Table K V → Table K V
  remove key [] = []
  remove key ((at, v) ∷ rest) =
      let left = remove key rest in if at == key then left else (at, v) ∷ left

  unfoldable pub lookup : K → Table K V → Option V
  lookup key [] = none
  lookup key ((at, v) ∷ rest) = if at == key then some v else lookup key rest

  -- m[key] = new; an entry that is there keeps its place.
  unfoldable pub insert : K → V → Table K V → Table K V
  insert key new [] = (key, new) ∷ []
  insert key new ((at, old) ∷ rest) =
      if at == key then (key, new) ∷ rest else (at, old) ∷ insert key new rest

  abbrev pub contains : K → Table K V → Bool
  contains key m = is_some (lookup key m)

  pub lookup-remove :
      (k j : K) (m : Table K V) → lookup j (remove k m) ≡ (if k == j then none else lookup j m)
  unfolding lookup remove
  lookup-remove k j [] = ground arith
  lookup-remove k j ((at, w) ∷ m) =
      ground (arith, lookup-remove k j m, e.same_iff k j, e.same_iff at k, e.same_iff at j)

  pub lookup-insert :
      (key asked : K) (new : V) (m : Table K V)
      → lookup asked (insert key new m) ≡ (if key == asked then some new else lookup asked m)
  unfolding lookup insert
  lookup-insert key asked new [] = refl
  lookup-insert key asked new ((at, old) ∷ rest) = ground (
    arith,
    lookup-insert key asked new rest,
    e.same_iff at key,
    e.same_iff at asked,
    e.same_iff key asked,
  )

  pub insert-insert :
      (key : K) (old new : V) (m : Table K V) → insert key new (insert key old m) ≡ insert key new m
  unfolding insert
  insert-insert key old new [] = rw (==-refl key) refl
  insert-insert key old new ((at, v) ∷ rest) =
      ground (arith, insert-insert key old new rest, ==-refl key, e.same_iff at key)

  pub insert-same : (key : K) (v : V) (m : Table K V) → lookup key m ≡ some v → insert key v m ≡ m
  unfolding insert lookup
  insert-same key v [] h = absurd (ground arith)
  insert-same key v ((at, w) ∷ rest) h = ground (arith, insert-same key v rest, e.same_iff at key)

  pub contains-insert :
      (k j : K) (v : V) (m : Table K V)
      → contains j (insert k v m) ≡ (if k == j then true else contains j m)
  contains-insert k j v m = ground (arith, lookup-insert k j v m)

  pub contains-remove :
      (k j : K) (m : Table K V) → contains j (remove k m) ≡ (if k == j then false else contains j m)
  contains-remove k j m = ground (arith, lookup-remove k j m)

  pub lookup-missing :
      (k j : K) (m : Table K V)
      → lookup k m ≡ none
      → lookup j m ≡ (if k == j then none else lookup j m)
  lookup-missing k j m h = ground (arith, e.same_iff k j)

  pub remove-missing : (k : K) (m : Table K V) → lookup k m ≡ none → remove k m ≡ m
  unfolding lookup remove
  remove-missing k [] h = refl
  remove-missing k ((j, v) ∷ m) h = ground (arith, remove-missing k m)

  -- No key stands twice: the tables of the program are of this form.
  abbrev pub Distinct : Table K V → Type κ
  Distinct [] = Unit
  Distinct ((k, v) ∷ m) = (lookup k m ≡ none) × Distinct m

  pub insert-Distinct : (k : K) (v : V) (m : Table K V) → Distinct m → Distinct (insert k v m)
  unfolding lookup insert
  insert-Distinct k v [] d = (refl, tt)
  insert-Distinct k v ((j, w) ∷ m) d =
      ground
        (arith, e.same_iff j k, e.same_iff k j, insert-Distinct k v m d.1, lookup-insert k j v m)

  pub remove-Distinct : (k : K) (m : Table K V) → Distinct m → Distinct (remove k m)
  unfolding lookup remove
  remove-Distinct k [] d = tt
  remove-Distinct k ((j, w) ∷ m) d =
      ground (arith, e.same_iff j k, e.same_iff k j, remove-Distinct k m d.1, lookup-remove k j m)

  -- The entries whose value passes a test.
  unfoldable pub retain : (K → V → Bool) → Table K V → Table K V
  retain test [] = []
  retain test ((k, v) ∷ m) = let rest = retain test m in if test k v then (k, v) ∷ rest else rest

  pub lookup-retain :
      (test : K → V → Bool) (k : K) (m : Table K V)
      → Distinct m
      → lookup k (retain test m) ≡ keep_if (test k) (lookup k m)
  unfolding lookup retain
  lookup-retain test k [] d = refl
  lookup-retain test k ((j, w) ∷ m) d = ground (arith, e.same_iff j k, lookup-retain test k m d.1)

  pub retain-Distinct :
      (test : K → V → Bool) (m : Table K V) → Distinct m → Distinct (retain test m)
  unfolding lookup retain
  retain-Distinct test [] d = tt
  retain-Distinct test ((j, w) ∷ m) d =
      ground (arith, retain-Distinct test m d.1, lookup-retain test j m d.1)

pub ruleset table_laws = (lookup-insert, lookup-remove, ==-refl)
