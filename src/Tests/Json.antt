-- ===== src/Tests/Json.antt =====
-- A concrete format for the list of the configurations.
use mathlib.Core.List.{append_assoc, append-nil}
use lalune_server.Base.{
  ℕ, ◌≡◌, refl, ap, ◌∙◌, sym, List, [], ◌∷◌, ◌++◌, some, if◌then◌else◌, ◌==◌, nat_key, Bytes,
}
use lalune_server.Configs.{Rapidjson, IsFaithful}

abbrev pub Value : Type 0
Value = ℕ × Bytes

pub data Mode : Type 0 where
  out : Mode
  flag : ℕ → Bytes → Mode
  byte : ℕ → Bytes → Mode

unfoldable pub read : Bytes → Mode → List Value
read [] m = []
read (x ∷ r) out = read r (flag x [])
read (x ∷ r) (flag ty acc) = if x == 0 then (ty, acc) ∷ read r out else read r (byte ty acc)
read (x ∷ r) (byte ty acc) = read r (flag ty (acc ++ x ∷ []))

unfoldable pub marked : Bytes → Bytes
marked [] = 0 ∷ []
marked (b ∷ bs) = 1 ∷ b ∷ marked bs

unfoldable pub print_all : List Value → Bytes
print_all [] = []
print_all ((ty, file) ∷ vs) = ty ∷ (marked file ++ print_all vs)

read-marked :
    (ty : ℕ) (acc file rest : Bytes)
    → read (marked file ++ rest) (flag ty acc) ≡ (ty, acc ++ file) ∷ read rest out
unfolding read marked
read-marked ty acc [] rest = ap (λ (l : Bytes). (ty, l) ∷ read rest out) (sym (append-nil acc))
read-marked ty acc (b ∷ bs) rest =
    read-marked ty (acc ++ b ∷ []) bs rest
    ∙ ap (λ (l : Bytes). (ty, l) ∷ read rest out) (append_assoc acc (b ∷ []) bs)

read-print_all : (vs : List Value) → read (print_all vs) out ≡ vs
unfolding read print_all
read-print_all [] = refl
read-print_all ((ty, file) ∷ vs) =
    read-marked ty [] file (print_all vs)
    ∙ ap (λ (l : List Value). (ty, file) ∷ l) (read-print_all vs)

unfoldable pub json : Rapidjson Value
unfolding read print_all marked
json = record {
  parse = λ text. some (read text out);
  print = print_all;
  object = λ ty name file. (ty, file);
  server_type = λ v. some (some v.0);
  file_name = λ v. some (some v.1);
}

pub json-IsFaithful : IsFaithful json
unfolding json
json-IsFaithful = record {
  parse-print = λ vs. ap (λ (l : List Value). some l) (read-print_all vs);
  server_type-object = λ ty n f. refl;
  file_name-object = λ ty n f. refl;
}
