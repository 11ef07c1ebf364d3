-- ===== src/Vfs/Mounts/Longest.antt =====
-- `vfs_find_mount` and `vfs_mount` of file_system/vfs/vfs.c.
use native.Mathlib.Decide.{dec_lt}
use acorn_os.Strings.{c_string, kstrlen}
use acorn_os.Strings.Copy.{kstrlen-eq-length}
use acorn_os.Vfs.Mounts.{
  index_of, Superblock, Best, mount_matches, consider, find_from, vfs_find_mount,
}
use acorn_os.Common.{
  ℕ, zero, suc, ◌+◌, ◌≤◌, ◌<◌, ◌≡◌, refl, sym, ap, ap₂, ◌∙◌, subst, inl, inr, true, false, Option,
  none, some, List, [], ◌∷◌, ◌++◌, arith, ltb, ◌==◌, ==_iff, ==_refl, Bool-cases, length, get_elem?,
}

abbrev pub IsPrefixOf : List ℕ → List ℕ → Type 0
IsPrefixOf xs ys = (rest : List ℕ) × (ys ≡ xs ++ rest)

cons_parts : (a b : ℕ) (as' bs : List ℕ) → a ∷ as' ≡ b ∷ bs → (a ≡ b) × (as' ≡ bs)
cons_parts a b as' bs e = (cc, cc)

mount_matches-prefix :
    (mount path : List ℕ)
    → mount_matches (kstrlen mount) mount path ≡ true
    → IsPrefixOf (c_string mount) (c_string path)
unfolding mount_matches kstrlen
mount_matches-prefix [] path h = (c_string path, refl)
mount_matches-prefix (m ∷ ms) [] h = elim (Bool-cases (m == 0)) [
  | inl z ↦ rw z ([], refl)
  | inr nz ↦ absurd (ground arith)
]
mount_matches-prefix (m ∷ ms) (p ∷ ps) h = elim (Bool-cases (m == 0)) [
  | inl z ↦ rw z (c_string (p ∷ ps), refl)
  | inr nz ↦ elim (Bool-cases (m == p)) [
    | inl same ↦
        let mp : m ≡ p = (==_iff m p).0 same in
        let pz : (p == 0) ≡ false = ground arith in
        let (r, e) = mount_matches-prefix ms ps (rw (nz, same) at h) in
        rw (nz, pz) (r, ap₂ ◌∷◌ (sym mp) e)
    | inr differ ↦ absurd (cc (rw (nz, differ) at h))
  ]
]

prefix-mount_matches :
    (mount path rest : List ℕ)
    → c_string path ≡ c_string mount ++ rest
    → mount_matches (kstrlen mount) mount path ≡ true
unfolding mount_matches kstrlen
prefix-mount_matches [] path rest e = refl
prefix-mount_matches (m ∷ ms) [] rest e = elim (Bool-cases (m == 0)) [
  | inl z ↦ rw z refl
  | inr nz ↦ absurd (cc (rw nz at e))
]
prefix-mount_matches (m ∷ ms) (p ∷ ps) rest e = elim (Bool-cases (m == 0)) [
  | inl z ↦ rw z refl
  | inr nz ↦ elim (Bool-cases (p == 0)) [
    | inl pz ↦ absurd (cc (rw (nz, pz) at e))
    | inr pnz ↦
        let parts = cons_parts p m (c_string ps) (c_string ms ++ rest) (rw (nz, pnz) at e) in
        rw nz (rw (parts.0, ==_refl m) (prefix-mount_matches ms ps rest parts.1))
  ]
]

-- The mount point of an entry is a prefix of the path, and how long it is.
abbrev pub Owns : Superblock → List ℕ → Type 0
Owns sb path = IsPrefixOf (c_string sb.mount_point) (c_string path)

abbrev pub mount_length : Superblock → ℕ
mount_length sb = length (c_string sb.mount_point)

-- The best entry of the first `n`: none owns the path, or it owns it and none of them that does has a
-- longer mount point.
abbrev pub IsBest : List Superblock → List ℕ → ℕ → Best → Type 0
IsBest table path n none =
    (k : ℕ) (sb : Superblock) → k < n → get_elem? table k ≡ some sb → ¬ Owns sb path
IsBest table path n (some (i, len)) =
    ((sb : Superblock) × (get_elem? table i ≡ some sb) × (mount_length sb ≡ len) × Owns sb path)
    × ((k : ℕ) (sb : Superblock)
        → k < n
        → get_elem? table k ≡ some sb
        → Owns sb path
        → mount_length sb ≤ len)

-- An entry below `n + 1` is below `n`, or the one at `n`.
split_entry {ℓ} :
    (table : List Superblock) (n k : ℕ) (sb sb' : Superblock) (P : Superblock → Type ℓ)
    → get_elem? table n ≡ some sb
    → k < n + 1
    → get_elem? table k ≡ some sb'
    → (k < n → P sb')
    → P sb
    → P sb'
split_entry table n k sb sb' P g l gk old new = elim (dec_lt k n) [
  | yes below ↦ old below
  | no last ↦
      let kn : k ≡ n = omega arith in
      let gn : get_elem? table n ≡ some sb' = rw kn at gk in subst P (cc) new
]

Owns-matches :
    (sb : Superblock) (path : List ℕ)
    → Owns sb path
    → mount_matches (kstrlen sb.mount_point) sb.mount_point path ≡ true
Owns-matches sb path (r, e) = prefix-mount_matches sb.mount_point path r e

consider-IsBest :
    (table : List Superblock) (path : List ℕ) (n : ℕ) (sb : Superblock) (best : Best)
    → get_elem? table n ≡ some sb
    → IsBest table path n best
    → IsBest table path (n + 1) (consider sb n path best)
unfolding consider
consider-IsBest table path n sb none g h =
    elim (Bool-cases (mount_matches (kstrlen sb.mount_point) sb.mount_point path)) [
      | inl owns ↦ rw owns (
        (
          sb,
          g,
          sym (kstrlen-eq-length sb.mount_point),
          mount_matches-prefix sb.mount_point path owns,
        ),
        λ k sb' l gk own.
            split_entry table n k sb sb' (λ s. mount_length s ≤ kstrlen sb.mount_point) g l gk
              (λ below. absurd (h k sb' below gk own))
              (omega (arith, kstrlen-eq-length sb.mount_point)),
      )
      | inr not_owned ↦ rw not_owned (λ k sb' l gk.
          split_entry table n k sb sb' (λ s. ¬ Owns s path) g l gk (λ below. h k sb' below gk)
            (λ own. cc (Owns-matches sb path own)))
    ]
consider-IsBest table path n sb (some (i, len)) g h =
    elim (Bool-cases (mount_matches (kstrlen sb.mount_point) sb.mount_point path)) [
      | inl owns ↦ rw owns (elim (Bool-cases (ltb len (kstrlen sb.mount_point))) [
        | inl longer ↦ rw longer (
          (
            sb,
            g,
            sym (kstrlen-eq-length sb.mount_point),
            mount_matches-prefix sb.mount_point path owns,
          ),
          λ k sb' l gk own.
              split_entry table n k sb sb' (λ s. mount_length s ≤ kstrlen sb.mount_point) g l gk
                (λ below. let old = h.1 k sb' below gk own in ground arith)
                (omega (arith, kstrlen-eq-length sb.mount_point)),
        )
        | inr shorter ↦ rw shorter (
          h.0,
          λ k sb' l gk own.
              split_entry table n k sb sb' (λ s. mount_length s ≤ len) g l gk
                (λ below. h.1 k sb' below gk own)
                (ground (arith, kstrlen-eq-length sb.mount_point)),
        )
      ])
      | inr not_owned ↦ rw not_owned (
        h.0,
        λ k sb' l gk own.
            split_entry table n k sb sb' (λ s. Owns s path → mount_length s ≤ len) g l gk
              (λ below own'. h.1 k sb' below gk own') (λ own'. cc (Owns-matches sb path own')) own,
      )
    ]

find_from-IsBest :
    (table rest : List Superblock) (path : List ℕ) (n : ℕ) (best : Best)
    → ((k : ℕ) → get_elem? rest k ≡ get_elem? table (n + k))
    → IsBest table path n best
    → IsBest table path (n + length rest) (find_from rest n path best)
unfolding find_from
find_from-IsBest table [] path n best e h =
    subst (λ m. IsBest table path m best) {x = n} {y = n + 0} (omega arith) h
find_from-IsBest table (sb ∷ rest) path n best e h =
    subst (λ m. IsBest table path m (find_from rest (n + 1) path (consider sb n path best)))
      {x = n + 1 + length rest} {y = n + suc (length rest)} (omega arith)
      (find_from-IsBest table rest path (n + 1) (consider sb n path best)
        (λ k. e (suc k) ∙ ap (get_elem? table) {x = n + suc k} {y = n + 1 + k} (omega arith))
        (consider-IsBest table path n sb best
          (ap (get_elem? table) {x = n} {y = n + 0} (omega arith) ∙ sym (e 0)) h))

-- The answer of `vfs_find_mount`: no mounted file system's mount point is a prefix of the path, or the
-- index is that of one whose mount point is, and of all that are no one's is longer.
abbrev pub IsOwner : List Superblock → List ℕ → Option ℕ → Type 0
IsOwner table path none = (k : ℕ) (sb : Superblock) → get_elem? table k ≡ some sb → ¬ Owns sb path
IsOwner table path (some i) =
    (sb : Superblock) × (get_elem? table i ≡ some sb)
    × Owns sb path
    × ((k : ℕ) (other : Superblock)
        → get_elem? table k ≡ some other
        → Owns other path
        → mount_length other ≤ mount_length sb)

in_table :
    (table : List Superblock) (k : ℕ) (sb : Superblock)
    → get_elem? table k ≡ some sb
    → k < length table
in_table [] k sb e = cc
in_table (x ∷ xs) zero sb e = omega arith
in_table (x ∷ xs) (suc k) sb e = omega (arith, in_table xs k sb e)

-- `vfs_find_mount` answers with the longest mount point that is a prefix of the path, character by
-- character, and with null exactly when no mount point is a prefix.
pub vfs_find_mount_lem :
    (table : List Superblock) (path : List ℕ) → IsOwner table path (vfs_find_mount table path)
unfolding vfs_find_mount
vfs_find_mount_lem table path =
    let h =
      find_from-IsBest table table path 0 none
        (λ k. ap (get_elem? table) {x = k} {y = 0 + k} (omega arith))
        (λ k sb l g own. omega arith) in
    go (find_from table 0 path none) h
  where
    go :
        (best : Best)
        → IsBest table path (0 + length table) best
        → IsOwner table path (index_of best)
    go none h = λ k sb g. h k sb (omega (arith, in_table table k sb g)) g
    go (some (i, len)) h =
        let (sb, g, l, own) = h.0 in
        (
          sb,
          g,
          own,
          λ k other gk o.
              let le = h.1 k other (omega (arith, in_table table k other gk)) gk o in
              omega (arith, l),
        )
