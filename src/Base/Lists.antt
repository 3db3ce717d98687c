-- ===== src/Base/Lists.antt =====
-- Lists measured by native numbers, and predicates on lists by recursion.
use Prim.Native.Nat.{ℕ, suc, ◌+◌, ◌≤◌}
use mathlib.Core.Path.{◌≡◌, refl}
use mathlib.Core.Bool.{Bool, true, false, ◌||◌}
use mathlib.Core.List.{List, [], ◌∷◌, ◌++◌}
use native.Mathlib.Omega.{arith}
use lalune_server.Base.Tests.{Key, ◌==◌, if◌then◌else◌}

module _ {ℓ} {A : Type ℓ} where
  abbrev pub length : List A → ℕ
  length [] = 0
  length (x ∷ xs) = suc (length xs)

  pub length-append : (xs ys : List A) → length (xs ++ ys) ≡ length xs + length ys
  length-append [] ys = omega arith
  length-append (x ∷ xs) ys = omega (arith, length-append xs ys)

  abbrev pub is_empty : List A → Bool
  is_empty [] = true
  is_empty (x ∷ xs) = false

  abbrev pub All {κ} : (A → Type κ) → List A → Type κ
  All P [] = Unit
  All P (x ∷ xs) = P x × All P xs

  pub All-append {κ} : (P : A → Type κ) (xs ys : List A) → All P xs → All P ys → All P (xs ++ ys)
  All-append P [] ys hx hy = hy
  All-append P (x ∷ xs) ys hx hy = (hx.0, All-append P xs ys hx.1 hy)

module _ {ℓ} {A : Type ℓ} ⦃e : Key A⦄ where
  -- How often a value stands in a list.
  abbrev pub count : A → List A → ℕ
  count a [] = 0
  count a (x ∷ xs) = (if x == a then 1 else 0) + count a xs

  abbrev pub elem : A → List A → Bool
  elem a [] = false
  elem a (x ∷ xs) = x == a || elem a xs

  -- The list without its first occurrence of a value.
  abbrev pub remove : A → List A → List A
  remove a [] = []
  remove a (x ∷ xs) = if x == a then xs else x ∷ remove a xs

  pub count-remove :
      (a b : A) (xs : List A)
      → count b (remove a xs) + (if elem a xs then (if a == b then 1 else 0) else 0) ≡ count b xs
  count-remove a b [] = omega arith
  count-remove a b (x ∷ xs) =
      ground (arith, e.beq_iff x a, e.beq_iff a b, e.beq_iff x b, count-remove a b xs)

  pub count-append : (a : A) (xs ys : List A) → count a (xs ++ ys) ≡ count a xs + count a ys
  count-append a [] ys = omega arith
  count-append a (x ∷ xs) ys = omega (arith, count-append a xs ys)

  pub elem-append : (a : A) (xs ys : List A) → elem a (xs ++ ys) ≡ (elem a xs || elem a ys)
  elem-append a [] ys = refl
  elem-append a (x ∷ xs) ys = ground (arith, elem-append a xs ys)

  pub count-pos_of_elem : (a : A) (xs : List A) → elem a xs ≡ true → 1 ≤ count a xs
  count-pos_of_elem a [] h = absurd (ground arith)
  count-pos_of_elem a (x ∷ xs) h = ground (arith, count-pos_of_elem a xs)

  pub count-zero_of_elem : (a : A) (xs : List A) → elem a xs ≡ false → count a xs ≡ 0
  count-zero_of_elem a [] h = refl
  count-zero_of_elem a (x ∷ xs) h = ground (arith, count-zero_of_elem a xs)

  pub beq-same : (a b c : A) → (a == b) ≡ true → (a == c) ≡ (b == c)
  beq-same a b c h = ground (arith, e.beq_iff a b, e.beq_iff a c, e.beq_iff b c)

  pub beq-other : (a b c : A) → (a == b) ≡ false → (b == c) ≡ true → (a == c) ≡ false
  beq-other a b c h k = ground (arith, e.beq_iff a b, e.beq_iff a c, e.beq_iff b c)

  pub elem_of_remove : (a b : A) (xs : List A) → elem b (remove a xs) ≡ true → elem b xs ≡ true
  elem_of_remove a b [] h = h
  elem_of_remove a b (x ∷ xs) h = ground (arith, elem_of_remove a b xs)

  pub elem-remove : (a : A) (xs : List A) → count a xs ≤ 1 → elem a (remove a xs) ≡ false
  elem-remove a xs once = ground (
    arith,
    count-remove a a xs,
    e.beq_iff a a,
    count-pos_of_elem a (remove a xs),
    elem_of_remove a a xs,
  )

  pub beq_refl : (a : A) → (a == a) ≡ true
  beq_refl a = (e.beq_iff a a).1 refl
