-- ===== src/Base/Maps.antt =====
-- `std::map` as an association list in the order of its keys.
use mathlib.Core.Path.{◌≡◌, refl}
use mathlib.Core.List.{List, [], ◌∷◌}
use mathlib.Core.Option.{Option, none, some}
use native.Mathlib.Omega.{arith}
use lalune_server.Base.Tests.{Key, ◌==◌, if◌then◌else◌}

module _ {ℓ κ} {K : Type ℓ} {V : Type κ} ⦃e : Key K⦄ where
  -- `find`: `none` is `end()`.
  abbrev pub lookup : K → List (K × V) → Option V
  lookup k [] = none
  lookup k ((j, v) ∷ m) = if j == k then some v else lookup k m

  -- A new key at its place in the order.
  abbrev pub place : K → V → List (K × V) → List (K × V)
  place k v [] = (k, v) ∷ []
  place k v ((j, w) ∷ m) = if e.lt k j then (k, v) ∷ (j, w) ∷ m else (j, w) ∷ place k v m

  -- A new value for a key that is there.
  abbrev pub replace : K → V → List (K × V) → List (K × V)
  replace k v [] = []
  replace k v ((j, w) ∷ m) = if j == k then (j, v) ∷ replace k v m else (j, w) ∷ replace k v m

  -- `m[k] = v`.
  abbrev pub insert : K → V → List (K × V) → List (K × V)
  insert k v m = elim (lookup k m) [ none ↦ place k v m | some w ↦ replace k v m ]

  -- `erase(k)`.
  abbrev pub erase : K → List (K × V) → List (K × V)
  erase k [] = []
  erase k ((j, w) ∷ m) = if j == k then erase k m else (j, w) ∷ erase k m

  -- `emplace` and `insert`, which leave a key that is there alone.
  abbrev pub emplace : K → V → List (K × V) → List (K × V)
  emplace k v m = elim (lookup k m) [ none ↦ insert k v m | some w ↦ m ]

  lookup-place :
      (k j : K) (v : V) (m : List (K × V))
      → lookup k m ≡ none
      → lookup j (place k v m) ≡ (if k == j then some v else lookup j m)
  lookup-place k j v [] h = refl
  lookup-place k j v ((i, w) ∷ m) h =
      ground (arith, e.beq_iff i k, e.beq_iff i j, e.beq_iff k j, lookup-place k j v m)

  lookup-replace :
      (k j : K) (v : V) (m : List (K × V))
      → lookup j (replace k v m)
        ≡ (elim (lookup k m) [ none ↦ lookup j m | some w ↦ if k == j then some v else lookup j m ])
  lookup-replace k j v [] = refl
  lookup-replace k j v ((i, w) ∷ m) =
      ground (arith, e.beq_iff i k, e.beq_iff i j, e.beq_iff k j, lookup-replace k j v m)

  pub lookup-insert :
      (k j : K) (v : V) (m : List (K × V))
      → lookup j (insert k v m) ≡ (if k == j then some v else lookup j m)
  lookup-insert k j v m = ground (arith, lookup-place k j v m, lookup-replace k j v m)

  pub lookup-erase :
      (k j : K) (m : List (K × V)) → lookup j (erase k m) ≡ (if k == j then none else lookup j m)
  lookup-erase k j [] = ground arith
  lookup-erase k j ((i, w) ∷ m) =
      ground (arith, e.beq_iff i k, e.beq_iff i j, e.beq_iff k j, lookup-erase k j m)

  pub lookup-emplace :
      (k j : K) (v : V) (m : List (K × V))
      → lookup j (emplace k v m)
        ≡ (elim (lookup k m) [ none ↦ if k == j then some v else lookup j m | some w ↦ lookup j m ])
  lookup-emplace k j v m = ground (arith, lookup-insert k j v m)

  pub emplace-new :
      (k : K) (v : V) (m : List (K × V)) → lookup k m ≡ none → emplace k v m ≡ insert k v m
  emplace-new k v m h = rw (emplace, h) refl

  pub emplace-old : (k : K) (v w : V) (m : List (K × V)) → lookup k m ≡ some w → emplace k v m ≡ m
  emplace-old k v w m h = rw (emplace, h) refl
