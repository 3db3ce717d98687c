-- ===== src/Match/Heroes.antt =====
-- `addForce`: three of six heroes by lot. The call of `rand()` is a number of the argument `rolls`.
use Prim.Native.String.{String}
use text.Mathlib.Text.{◌==◌ as str_eq}
use text.Mathlib.TextEquality.{eq_iff}
use lalune_server.Base.{
  ℕ, zero, suc, ◌+◌, ◌-◌, ◌%◌, ◌<◌, ◌≡◌, ◌≢◌, refl, Bool, true, false, not, ◌&&◌, List, [], ◌∷◌,
  ◌++◌, Option, none, some, arith, if◌then◌else◌, leb, Bytes, length,
}

pub record UnitData : Type 0 where
  pub unit_name : String
  pub unit_level : ℕ

pub record ForceData : Type 0 where
  pub user_id : Bytes
  pub force_id : ℕ
  pub units : List UnitData

infixl 5 ◌>>=◌
abbrev pub ◌>>=◌ {ℓ κ} : {A : Type ℓ} {B : Type κ} → Option A → (A → Option B) → Option B
none >>= f = none
some a >>= f = f a

abbrev pub all_heros : List String
all_heros = "saber" ∷ "panda" ∷ "vanhelsing" ∷ "dracula" ∷ "zeus" ∷ "enchantress" ∷ []

abbrev pub hero_pick_count : ℕ
hero_pick_count = 3

-- `all_heros[i]`; beyond the end the program reads what is not there.
abbrev pub get_elem? : List String → ℕ → Option String
get_elem? [] i = none
get_elem? (x ∷ xs) zero = some x
get_elem? (x ∷ xs) (suc i) = get_elem? xs i

insert_sorted : ℕ → List ℕ → List ℕ
insert_sorted x [] = x ∷ []
insert_sorted x (y ∷ ys) = if leb x y then x ∷ y ∷ ys else y ∷ insert_sorted x ys

unfoldable pub sort : List ℕ → List ℕ
unfolding insert_sorted
sort [] = []
sort (x ∷ xs) = insert_sorted x (sort xs)

-- `r[i] = rand() % (all_heros.size() - HERO_PICK_COUNT + 1)`.
unfoldable pub limit : List ℕ → List ℕ
limit [] = []
limit (x ∷ xs) = x % (length all_heros - hero_pick_count + 1) ∷ limit xs

-- The second loop, from `i` on.
unfoldable pub pick : ℕ → List ℕ → Option (List UnitData)
pick i [] = some []
pick i (r ∷ rs) = do
  name ← get_elem? all_heros (r + i)
  rest ← pick (i + 1) rs
  some (record { unit_name = name; unit_level = 1 } ∷ rest)

unfoldable pub add_force : List ℕ → Bytes → List ForceData → Option (List ForceData)
add_force rolls user_id init = do
  units ← pick 0 (sort (limit rolls))
  some (init ++ (record { user_id = user_id; force_id = length init + 1; units = units } ∷ []))

-- Whether three units came out, of three different names.
three_names : Option (List UnitData) → Bool
three_names (some (x ∷ y ∷ z ∷ [])) =
    not (str_eq x.unit_name y.unit_name)
    && not (str_eq y.unit_name z.unit_name)
    && not (str_eq x.unit_name z.unit_name)
three_names _ = false

-- A test of every number under a bound, by evaluation.
holds_under : (ℕ → Bool) → ℕ → Bool
holds_under test zero = true
holds_under test (suc bound) = holds_under test bound && test bound

holds_at :
    (test : ℕ → Bool) (bound k : ℕ) → k < bound → holds_under test bound ≡ true → test k ≡ true
unfolding holds_under
holds_at test zero k low table = absurd (omega arith)
holds_at test (suc bound) k low table = ground (arith, holds_at test bound k)

picks : ℕ → ℕ → ℕ → Bool
picks a b c = three_names (pick 0 (sort (a ∷ b ∷ c ∷ [])))

picks_table : holds_under (λ a. holds_under (λ b. holds_under (picks a b) 4) 4) 4 ≡ true
unfolding holds_under picks three_names pick sort
picks_table = refl

picks_all : (a b c : ℕ) → a < 4 → b < 4 → c < 4 → picks a b c ≡ true
picks_all a b c ha hb hc = holds_at (picks a b) 4 c hc (
    holds_at (λ y. holds_under (picks a y) 4) 4 b hb
      (holds_at (λ x. holds_under (λ y. holds_under (picks x y) 4) 4) 4 a ha picks_table))

three_of :
    (r : Option (List UnitData))
    → three_names r ≡ true
    → (x y z : UnitData) × (r ≡ some (x ∷ y ∷ z ∷ []))
      × (x.unit_name ≢ y.unit_name)
      × (y.unit_name ≢ z.unit_name)
      × (x.unit_name ≢ z.unit_name)
unfolding three_names
three_of none h = cc
three_of (some []) h = cc
three_of (some (x ∷ [])) h = cc
three_of (some (x ∷ y ∷ [])) h = cc
three_of (some (x ∷ y ∷ z ∷ [])) h = (
  x,
  y,
  z,
  refl,
  ground (arith, eq_iff x.unit_name y.unit_name),
  ground (arith, eq_iff y.unit_name z.unit_name),
  ground (arith, eq_iff x.unit_name z.unit_name),
)
three_of (some (x ∷ y ∷ z ∷ w ∷ l)) h = cc

-- Whatever `rand()` gives, no read is out of range: a force is added behind the others, numbered by
-- its place from 1, and its three heroes are three different ones.
pub add_force_lem :
    (a b c : ℕ) (user_id : Bytes) (init : List ForceData)
    → (x y z : UnitData) × (add_force (a ∷ b ∷ c ∷ []) user_id init
        ≡ some (
            init
            ++ (record { user_id = user_id; force_id = length init + 1; units = x ∷ y ∷ z ∷ [] }
                ∷ [])))
      × (x.unit_name ≢ y.unit_name)
      × (y.unit_name ≢ z.unit_name)
      × (x.unit_name ≢ z.unit_name)
unfolding add_force
add_force_lem a b c user_id init =
    let (x, y, z, e, p, q, r) = three_of (pick 0 (sort (limit (a ∷ b ∷ c ∷ [])))) (
      unfold limit picks in
      picks_all (a % 4) (b % 4) (c % 4) (omega arith) (omega arith) (omega arith)) in
    (x, y, z, rw (e, add_force), p, q, r)
