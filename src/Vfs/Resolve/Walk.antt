-- ===== src/Vfs/Resolve/Walk.antt =====
-- The walk of `vfs_resolve_path` of file_system/vfs/vfs.c over a path written out.
use acorn_os.Vfs.Path.{slash, vfs_max_name}
use acorn_os.Vfs.Path.Split.{IsName}
use acorn_os.Vfs.Resolve.{Lookups, Walked, found, missing, take_component, skip_slash, is_end, walk}
use acorn_os.Common.{
  ℕ, zero, suc, ◌<◌, ◌≡◌, refl, sym, ap, ◌∙◌, true, false, List, [], ◌∷◌, ◌++◌, append-nil, arith,
  leb, ◌==◌, if◌then◌else◌, length, length-append,
}

-- A path written out: names joined by slashes.
abbrev pub join : List (List ℕ) → List ℕ
join [] = []
join (n ∷ []) = n
join (n ∷ m ∷ ns) = n ++ slash ∷ join (m ∷ ns)

-- Every one is a name that fits the component buffer.
abbrev pub AreNames : List (List ℕ) → Type 0
AreNames [] = Unit {0}
AreNames (n ∷ ns) = IsName n × (0 < length n) × (length n < vfs_max_name) × AreNames ns

-- Looking the names up one after the other.
abbrev pub follow : Lookups → ℕ → List (List ℕ) → Walked
follow ops current [] = found current
follow ops current (n ∷ ns) =
    let rest = follow ops (ops.lookup current n) ns in
    if ops.has_lookup current
    then (if ops.lookup current n == 0 then missing else rest)
    else missing

take_component-slash :
    (n rest : List ℕ) → IsName n → take_component (n ++ slash ∷ rest) ≡ (n, slash ∷ rest)
unfolding take_component
take_component-slash [] rest h = refl
take_component-slash (c ∷ n) rest h = ground (arith, take_component-slash n rest h.2)

take_component-end : (n : List ℕ) → IsName n → take_component n ≡ (n, [])
unfolding take_component
take_component-end [] h = refl
take_component-end (c ∷ n) h = ground (arith, take_component-end n h.2)

-- What a round of the walk does with a name and what is behind it.
unfoldable round_at : Lookups → ℕ → ℕ → List ℕ × List ℕ → Walked
round_at ops fuel current (n, rest) = elim (ops.has_lookup current) [
  | false ↦ missing
  | true ↦ elim (ops.lookup current n == 0) [
    | true ↦ missing
    | false ↦ walk ops fuel (ops.lookup current n) (skip_slash rest)
  ]
]

walk-round :
    (ops : Lookups) (fuel current : ℕ) (path : List ℕ)
    → is_end path ≡ false
    → leb vfs_max_name (length (take_component path).0) ≡ false
    → (length (take_component path).0 == 0) ≡ false
    → walk ops (suc fuel) current path ≡ round_at ops fuel current (take_component path)
unfolding walk round_at
walk-round ops fuel current path more short long = rw (more, short, long, walk) refl

-- One round of the walk at a path that starts with a name.
walk-name :
    (ops : Lookups) (fuel current : ℕ) (n path rest : List ℕ)
    → 0 < length n
    → length n < vfs_max_name
    → is_end path ≡ false
    → take_component path ≡ (n, rest)
    → walk ops (suc fuel) current path ≡ round_at ops fuel current (n, rest)
walk-name ops fuel current n path rest pos fits more e =
    let short : leb vfs_max_name (length (take_component path).0) ≡ false = rw e ground arith in
    let long : (length (take_component path).0 == 0) ≡ false = rw e ground arith in
    walk-round ops fuel current path more short long ∙ ap (round_at ops fuel current) e

nonempty : (n rest : List ℕ) → IsName n → 0 < length n → is_end (n ++ rest) ≡ false
nonempty [] rest h p = absurd (omega arith)
nonempty (c ∷ n) rest h p = ground arith

-- When the rest of the walk follows the names, so does the whole.
round_at-follow :
    (ops : Lookups) (fuel current : ℕ) (n rest : List ℕ) (ns : List (List ℕ))
    → walk ops fuel (ops.lookup current n) (skip_slash rest) ≡ follow ops (ops.lookup current n) ns
    → round_at ops fuel current (n, rest) ≡ follow ops current (n ∷ ns)
unfolding round_at
round_at-follow ops fuel current n rest ns e = ground arith

-- Of a path whose components are names that fit the buffer, the walk gives what looking them up one
-- after the other gives, and its fuel, a round for each character and one more, is enough.
pub walk-join :
    (ops : Lookups) (ns : List (List ℕ)) (fuel current : ℕ)
    → AreNames ns
    → length (join ns) < fuel
    → walk ops fuel current (join ns) ≡ follow ops current ns
unfolding walk
walk-join ops [] zero current h l = absurd (omega arith)
walk-join ops [] (suc fuel) current h l = refl
walk-join ops (n ∷ ns) zero current h l = absurd (omega arith)
walk-join ops (n ∷ []) (suc fuel) current (h, pos, fits, u) l =
    let more : is_end n ≡ false = rw (sym (append-nil n)) (nonempty n [] h pos) in
    let round = walk-name ops fuel current n n [] pos fits more (take_component-end n h) in
    let next = walk-join ops [] fuel (ops.lookup current n) tt (omega arith) in
    round ∙ round_at-follow ops fuel current n [] [] next
walk-join ops (n ∷ m ∷ ns) (suc fuel) current (h, pos, fits, hs) l =
    let rest = slash ∷ join (m ∷ ns) in
    let more = nonempty n rest h pos in
    let split = take_component-slash n (join (m ∷ ns)) h in
    let round = walk-name ops fuel current n (n ++ rest) rest pos fits more split in
    let long = length-append n rest in
    let next = walk-join ops (m ∷ ns) fuel (ops.lookup current n) hs (omega arith) in
    round ∙ round_at-follow ops fuel current n rest (m ∷ ns) next
