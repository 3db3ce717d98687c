-- ===== src/Base/Entries.antt =====
-- The entries of a map, for the loops that walk it: each one is the one that its key finds.
use mathlib.Core.Path.{◌≡◌, refl}
use mathlib.Core.Bool.{true, false}
use mathlib.Core.List.{List, [], ◌∷◌}
use mathlib.Core.Option.{Option, none, some}
use mathlib.Core.Logic.{inl, inr}
use native.Mathlib.Omega.{arith}
use lalune_server.Base.Tests.{Key, ◌==◌, Bool-cases}
use lalune_server.Base.Lists.{All, beq_refl}
use lalune_server.Base.Maps.{lookup, insert, erase, place, replace, lookup-insert, lookup-erase}

module _ {ℓ κ} {K : Type ℓ} {V : Type κ} ⦃e : Key K⦄ where
  abbrev pub Found : List (K × V) → K × V → Type κ
  Found m (k, v) = lookup k m ≡ some v

  abbrev pub IsMap : List (K × V) → Type κ
  IsMap m = All (Found m) m

  All-map :
      (P Q : K × V → Type κ) (m : List (K × V)) → ((p : K × V) → P p → Q p) → All P m → All Q m
  All-map P Q [] f h = tt
  All-map P Q (p ∷ m) f (hp, h) = (f p hp, All-map P Q m f h)

  All-place :
      (P : K × V → Type κ) (k : K) (v : V) (m : List (K × V))
      → P (k, v)
      → All P m
      → All P (place k v m)
  All-place P k v [] h hs = (h, tt)
  All-place P k v ((j, w) ∷ m) h (hp, hs) = elim (Bool-cases (e.lt k j)) [
    | inl before ↦ rw before (h, (hp, hs))
    | inr after ↦ rw after (hp, All-place P k v m h hs)
  ]

  All-replace :
      (P Q : K × V → Type κ) (k : K) (v : V) (m : List (K × V))
      → ((j : K) → (j == k) ≡ true → Q (j, v))
      → ((j : K) (w : V) → (j == k) ≡ false → P (j, w) → Q (j, w))
      → All P m
      → All Q (replace k v m)
  All-replace P Q k v [] f g h = tt
  All-replace P Q k v ((j, w) ∷ m) f g (hp, h) = elim (Bool-cases (j == k)) [
    | inl same ↦ rw same (f j same, All-replace P Q k v m f g h)
    | inr other ↦ rw other (g j w other hp, All-replace P Q k v m f g h)
  ]

  All-erase :
      (P Q : K × V → Type κ) (k : K) (m : List (K × V))
      → ((j : K) (w : V) → (j == k) ≡ false → P (j, w) → Q (j, w))
      → All P m
      → All Q (erase k m)
  All-erase P Q k [] g h = tt
  All-erase P Q k ((j, w) ∷ m) g (hp, h) = elim (Bool-cases (j == k)) [
    | inl same ↦ rw same (All-erase P Q k m g h)
    | inr other ↦ rw other (g j w other hp, All-erase P Q k m g h)
  ]

  All-insert :
      (P Q : K × V → Type κ) (k : K) (v : V) (m : List (K × V))
      → ((j : K) → (j == k) ≡ true → Q (j, v))
      → ((j : K) (w : V) → (j == k) ≡ false → P (j, w) → Q (j, w))
      → ((j : K) (w : V) → lookup k m ≡ none → P (j, w) → Q (j, w))
      → All P m
      → All Q (insert k v m)
  All-insert P Q k v m there elsewhere apart h = by_key (lookup k m) refl
    where
      by_key : (o : Option V) → lookup k m ≡ o → All Q (insert k v m)
      by_key none new =
          rw (insert, new)
            (All-place Q k v m (there k (beq_refl k))
              (All-map P Q m (λ (j, w) at. apart j w new at) h))
      by_key (some w) old = rw (insert, old) (All-replace P Q k v m there elsewhere h)

  pub insert-IsMap : (k : K) (v : V) (m : List (K × V)) → IsMap m → IsMap (insert k v m)
  insert-IsMap k v m h =
      All-insert (Found m) (Found (insert k v m)) k v m
        (λ j same. ground (arith, lookup-insert k j v m, e.beq_iff j k, e.beq_iff k j))
        (λ j w other at. ground (arith, lookup-insert k j v m, e.beq_iff j k, e.beq_iff k j))
        (λ j w new at. ground (arith, lookup-insert k j v m, e.beq_iff k j, new, at)) h

  pub erase-IsMap : (k : K) (m : List (K × V)) → IsMap m → IsMap (erase k m)
  erase-IsMap k m h =
      All-erase (Found m) (Found (erase k m)) k m
        (λ j w other at. ground (arith, lookup-erase k j m, e.beq_iff j k, e.beq_iff k j)) h
