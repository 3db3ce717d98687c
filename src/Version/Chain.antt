-- ===== src/Version/Chain.antt =====
-- A client is taken from its version to the end of the chain of updates.
use mathlib.Core.List.{append-nil, append_assoc}
use lalune_server.Base.{
  ◌≡◌, refl, ap, sym, ◌∙◌, false, List, [], ◌∷◌, ◌++◌, some, ◌==◌, nat_key, bytes_key, Bytes, All,
  length, beq_refl, Bool-cases, inl, inr, arith,
}
use lalune_server.Base.Maps.{insert}
use lalune_server.Version.{
  bar, split_from, get_verctor, VersionInformation, Files, add_files, follow, check_version,
}

-- Parts, each with a bar behind it.
abbrev pub barred : List Bytes → Bytes
barred [] = []
barred (p ∷ ps) = p ++ bar ∷ barred ps

abbrev pub IsPlain : Bytes → Type 0
IsPlain p = All (λ c. (c == bar) ≡ false) p

split_from-part :
    (part p rest : Bytes)
    → IsPlain p
    → split_from part (p ++ bar ∷ rest) ≡ (part ++ p) ∷ split_from [] rest
unfolding split_from
split_from-part part [] rest h = ap (λ (q : Bytes). q ∷ split_from [] rest) (sym (append-nil part))
split_from-part part (c ∷ p) rest h =
    rw (split_from, h.0)
      (split_from-part (part ++ c ∷ []) p rest h.1
        ∙ ap (λ (q : Bytes). q ∷ split_from [] rest) (append_assoc part (c ∷ []) p))

-- Parts without a bar come back from the text that puts a bar behind each.
pub get_verctor-barred : (ps : List Bytes) → All IsPlain ps → get_verctor (barred ps) ≡ ps
unfolding get_verctor
get_verctor-barred [] h = refl
get_verctor-barred (p ∷ ps) h =
    split_from-part [] p (barred ps) h.0
    ∙ ap (λ (l : List Bytes). p ∷ l) (get_verctor-barred ps h.1)

-- The search for the client's version changes nothing: the inner loop alone gives the answer.
pub check_version-follow :
    (l : List VersionInformation) (now : Bytes) → check_version l now ≡ follow l now []
unfolding check_version
check_version-follow [] now = refl
check_version-follow (v ∷ l) now = elim (Bool-cases (now == v.now_version)) [
  | inl here ↦ rw (check_version, here) refl
  | inr away ↦ rw (check_version, follow, away) (check_version-follow l now)
]

-- Versions of which each takes on the one before it, from the first to the last.
abbrev pub IsChain : Bytes → List VersionInformation → Bytes → Type 0
IsChain now [] last = now ≡ last
IsChain now (v ∷ l) last = (now ≡ v.now_version) × IsChain v.next_version l last

-- No path of the version lacks its url.
abbrev pub IsComplete : VersionInformation → Type 0
IsComplete v = length v.file_path ≡ length v.file_url

add_files-some :
    (ps us : List Bytes) (files : Files)
    → length ps ≡ length us
    → (files' : Files) × (add_files ps us files ≡ some files')
unfolding add_files
add_files-some [] us files h = (files, refl)
add_files-some (p ∷ ps) [] files h = absurd (omega arith)
add_files-some (p ∷ ps) (u ∷ us) files h = add_files-some ps us (insert p u files) (omega arith)

follow-chain :
    (l : List VersionInformation) (now last : Bytes) (files : Files)
    → IsChain now l last
    → All IsComplete l
    → (files' : Files) × (follow l now files ≡ some (last, files'))
unfolding follow
follow-chain [] now last files h k = (files, ap (λ (n : Bytes). some (n, files)) h)
follow-chain (v ∷ l) now last files h k =
    let (added, e) = add_files-some v.file_path v.file_url files k.0 in
    let (files', f) = follow-chain l v.next_version last added h.1 k.1 in
    (files', rw (follow, h.0, beq_refl v.now_version, e) f)

skip :
    (before l : List VersionInformation) (now : Bytes) (files : Files)
    → All (λ v. (now == v.now_version) ≡ false) before
    → follow (before ++ l) now files ≡ follow l now files
unfolding follow
skip [] l now files h = refl
skip (v ∷ before) l now files h = rw (follow, h.0) (skip before l now files h.1)

-- If the versions from the client's on form a chain, and each has a url for every path, the answer
-- is the last version of the chain, whatever versions come before it.
pub check_version-last :
    (before chain : List VersionInformation) (now last : Bytes)
    → All (λ v. (now == v.now_version) ≡ false) before
    → IsChain now chain last
    → All IsComplete chain
    → (files : Files) × (check_version (before ++ chain) now ≡ some (last, files))
check_version-last before chain now last h linked complete =
    let (files, e) = follow-chain chain now last [] linked complete in
    (files, check_version-follow (before ++ chain) now ∙ skip before chain now [] h ∙ e)
