-- ===== src/Base/Lists.antt =====
-- Lists measured by native numbers, and the list operations of Qt that the code uses.
use Prim.Native.Nat.{ℕ, zero, suc, ◌+◌, ◌-◌, ◌≤◌}
use mathlib.Core.Path.{◌≡◌, refl, ◌∙◌}
use mathlib.Core.Bool.{Bool, false, ◌||◌}
use mathlib.Core.List.{List, [], ◌∷◌, ◌++◌}
use native.Mathlib.Omega.{arith}
use noctalia_unofficial_auth.Base.Tests.{Comparable, ◌==◌, if◌then◌else◌}

module _ {ℓ} {A : Type ℓ} where
  abbrev pub length : List A → ℕ
  length [] = 0
  length (x ∷ xs) = suc (length xs)

  abbrev pub drop : ℕ → List A → List A
  drop zero xs = xs
  drop (suc n) [] = []
  drop (suc n) (x ∷ xs) = drop n xs

  pub length-append : (xs ys : List A) → length (xs ++ ys) ≡ length xs + length ys
  length-append [] ys = omega arith
  length-append (x ∷ xs) ys = omega (arith, length-append xs ys)

  pub length-drop : (n : ℕ) (xs : List A) → length (drop n xs) ≡ length xs - n
  length-drop zero xs = omega arith
  length-drop (suc n) [] = omega arith
  length-drop (suc n) (x ∷ xs) = omega (arith, length-drop n xs)

  pub drop-append : (n : ℕ) (xs ys : List A) → n ≤ length xs → drop n (xs ++ ys) ≡ drop n xs ++ ys
  drop-append zero xs ys h = refl
  drop-append (suc n) [] ys h = absurd (omega arith)
  drop-append (suc n) (x ∷ xs) ys h = drop-append n xs ys (omega arith)

  -- A predicate on every element.
  abbrev pub All {κ} : (A → Type κ) → List A → Type κ
  All P [] = Unit
  All P (x ∷ xs) = P x × All P xs

  pub All-append {κ} : (P : A → Type κ) (xs ys : List A) → All P xs → All P ys → All P (xs ++ ys)
  All-append P [] ys h k = k
  All-append P (x ∷ xs) ys h k = (h.0, All-append P xs ys h.1 k)

  pub All-map {κ κ'} :
      (P : A → Type κ) (Q : A → Type κ')
      → ((x : A) → P x → Q x)
      → (xs : List A) → All P xs
      → All Q xs
  All-map P Q f [] h = tt
  All-map P Q f (x ∷ xs) h = (f x h.0, All-map P Q f xs h.1)

module _ {ℓ} {A : Type ℓ} ⦃e : Comparable A⦄ where
  -- QList::contains
  unfoldable pub contains : A → List A → Bool
  contains a [] = false
  contains a (x ∷ xs) = x == a || contains a xs

  -- QList::removeAll
  unfoldable pub remove_all : A → List A → List A
  remove_all a [] = []
  remove_all a (x ∷ xs) = let rest = remove_all a xs in if x == a then rest else x ∷ rest

  -- QList::removeOne
  unfoldable pub remove_one : A → List A → List A
  remove_one a [] = []
  remove_one a (x ∷ xs) = let rest = remove_one a xs in if x == a then xs else x ∷ rest

  pub contains-append :
      (a : A) (xs ys : List A) → contains a (xs ++ ys) ≡ (contains a xs || contains a ys)
  unfolding contains
  contains-append a [] ys = refl
  contains-append a (x ∷ xs) ys = ground (arith, contains-append a xs ys)

  pub contains-remove_all :
      (a b : A) (xs : List A)
      → contains b (remove_all a xs) ≡ (if a == b then false else contains b xs)
  unfolding contains remove_all
  contains-remove_all a b [] = ground arith
  contains-remove_all a b (x ∷ xs) =
      ground (arith, e.same_iff x a, e.same_iff x b, e.same_iff a b, contains-remove_all a b xs)

  -- No element stands twice.
  abbrev pub Unique : List A → Type 0
  Unique [] = Unit
  Unique (x ∷ xs) = (contains x xs ≡ false) × Unique xs

  pub append-Unique :
      (a : A) (xs : List A) → contains a xs ≡ false → Unique xs → Unique (xs ++ a ∷ [])
  unfolding contains
  append-Unique a [] h u = (refl, tt)
  append-Unique a (x ∷ xs) h u = (
    contains-append x xs (a ∷ []) ∙ ground (arith, u.0, e.same_iff x a, e.same_iff a x),
    append-Unique a xs (ground arith) u.1,
  )

  contains-remove_one :
      (a b : A) (xs : List A) → contains b xs ≡ false → contains b (remove_one a xs) ≡ false
  unfolding contains remove_one
  contains-remove_one a b [] h = h
  contains-remove_one a b (x ∷ xs) h = ground (arith, contains-remove_one a b xs)

  pub remove_one-Unique : (a : A) (xs : List A) → Unique xs → Unique (remove_one a xs)
  unfolding remove_one
  remove_one-Unique a [] u = tt
  remove_one-Unique a (x ∷ xs) u =
      ground (arith, remove_one-Unique a xs u.1, contains-remove_one a x xs u.0)

  -- After removeOne, an element that stood once is gone.
  pub contains-remove_one_self :
      (a : A) (xs : List A) → Unique xs → contains a (remove_one a xs) ≡ false
  unfolding contains remove_one
  contains-remove_one_self a [] u = refl
  contains-remove_one_self a (x ∷ xs) u =
      ground (arith, e.same_iff x a, contains-remove_one_self a xs u.1, u.0)
