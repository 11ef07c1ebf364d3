-- ===== src/Vfs/Files/Table.antt =====
-- The descriptor table of file_system/vfs/vfs.c: `vfs_alloc_fd`, `vfs_get_file`, `vfs_free_fd`.
use acorn_os.Vfs.Files.{vfs_max_fds, find_free, vfs_alloc_fd, vfs_free_fd, vfs_get_file}
use acorn_os.Common.Int.{ℤ, pos, negsuc}
use acorn_os.Common.{
  get_or-set_self, get_or-set_ne, ltb→lt, ltb, ℕ, zero, suc, ◌+◌, ◌-◌, ◌≤◌, ◌<◌, ◌≡◌, refl, sym, ap,
  subst, ◌≢◌, ◌⊎◌, inl, inr, false, none, some, List, [], ◌∷◌, arith, leb, ◌==◌, Bool-cases, length,
  get_or, set,
}

-- A descriptor that the search of the `n` slots from `fd` may give: the first one that is null.
abbrev pub IsFirstFree : ℕ → ℕ → List ℕ → ℕ → Type 0
IsFirstFree n fd table k =
    (fd ≤ k)
    × (k < fd + n)
    × (get_or table k 0 ≡ 0)
    × ((j : ℕ) → fd ≤ j → j < k → get_or table j 0 ≢ 0)

abbrev pub AreUsed : ℕ → ℕ → List ℕ → Type 0
AreUsed n fd table = (j : ℕ) → fd ≤ j → j < fd + n → get_or table j 0 ≢ 0

find_free_lem :
    (n fd : ℕ) (table : List ℕ)
    → ((find_free n fd table ≡ none) × AreUsed n fd table)
      ⊎ ((k : ℕ) × (find_free n fd table ≡ some k) × IsFirstFree n fd table k)
unfolding find_free
find_free_lem zero fd table = inl (refl, λ j l h e. omega arith)
find_free_lem (suc n) fd table = elim (Bool-cases (get_or table fd 0 == 0)) [
  | inl e ↦
      inr (fd, rw e refl, (omega arith, omega arith, ground arith, λ j l h. absurd (omega arith)))
  | inr e ↦ elim (find_free_lem n (fd + 1) table) [
    | inl (r, used) ↦ inl (
      rw e r,
      λ j l h. elim (Bool-cases (fd == j)) [
        | inl s ↦ ground arith
        | inr s ↦ used j (ground arith) (omega arith)
      ],
    )
    | inr (k, r, (lo, hi, z, below)) ↦ inr (
      k,
      rw e r,
      (
        omega arith,
        omega arith,
        z,
        λ j l h. elim (Bool-cases (fd == j)) [
          | inl s ↦ ground arith
          | inr s ↦ below j (ground arith) h
        ],
      ),
    )
  ]
]

set-set-restore : (xs : List ℕ) (i v : ℕ) → set (set xs i v) i (get_or xs i 0) ≡ xs
set-set-restore [] i v = refl
set-set-restore (x ∷ xs) zero v = refl
set-set-restore (x ∷ xs) (suc i) v = ap (◌∷◌ x) (set-set-restore xs i v)

-- Every descriptor but `k` stands for the same file in both tables.
abbrev pub SameBut : ℕ → List ℕ → List ℕ → Type 0
SameBut k table table' = (fd : ℤ) → fd ≢ pos k → vfs_get_file table' fd ≡ vfs_get_file table fd

vfs_get_file-set : (table : List ℕ) (k v : ℕ) → SameBut k table (set table k v)
unfolding vfs_get_file
vfs_get_file-set table k v (negsuc n) ne = refl
vfs_get_file-set table k v (pos j) ne = elim (Bool-cases (leb vfs_max_fds j)) [
  | inl e ↦ ground arith
  | inr e ↦ rw e (get_or-set_ne table k j v 0 (λ s. ne (ap pos (sym s))))
]

-- A file put into a free slot.
pub set-slot :
    (table : List ℕ) (file k : ℕ)
    → k < length table
    → k < vfs_max_fds
    → get_or table k 0 ≡ 0
    → (vfs_get_file (set table k file) (pos k) ≡ file)
      × SameBut k table (set table k file)
      × (vfs_free_fd (set table k file) (pos k) ≡ table)
unfolding vfs_get_file vfs_free_fd
set-slot table file k h l free =
    let lt : leb vfs_max_fds k ≡ false = ground arith in
    let restore : set (set table k file) k 0 ≡ table =
      subst (λ z. set (set table k file) k z ≡ table) free (set-set-restore table k file) in
    (rw lt (get_or-set_self table k file 0 h), vfs_get_file-set table k file, rw lt restore)

-- On a descriptor table of full length, `vfs_alloc_fd` fails exactly when every descriptor from 3 is
-- in use, and otherwise gives the lowest free one from 3: the file is then found there, every other
-- descriptor stands for what it stood for, and `vfs_free_fd` brings the table from before back.
pub vfs_alloc_fd_lem :
    (table : List ℕ) (file : ℕ)
    → length table ≡ vfs_max_fds
    → ((vfs_alloc_fd table file ≡ none) × AreUsed (vfs_max_fds - 3) 3 table)
      ⊎ ((k : ℕ) × (table' : List ℕ) × (vfs_alloc_fd table file ≡ some (k, table'))
          × IsFirstFree (vfs_max_fds - 3) 3 table k
          × (vfs_get_file table' (pos k) ≡ file)
          × SameBut k table table'
          × (vfs_free_fd table' (pos k) ≡ table))
unfolding vfs_alloc_fd
vfs_alloc_fd_lem table file l = elim (find_free_lem (vfs_max_fds - 3) 3 table) [
  | inl (r, used) ↦ inl (rw r refl, used)
  | inr (k, r, first) ↦
      let (lo, hi, free, below) = first in
      let (at, same, back) = set-slot table file k (omega arith) (omega arith) free in
      inr (k, set table k file, rw r refl, first, at, same, back)
]

-- The search gives the first free slot.
pub vfs_alloc_fd-first :
    (table : List ℕ) (file k : ℕ)
    → IsFirstFree (vfs_max_fds - 3) 3 table k
    → vfs_alloc_fd table file ≡ some (k, set table k file)
unfolding vfs_alloc_fd
vfs_alloc_fd-first table file k (lo, hi, free, below) =
    elim (find_free_lem (vfs_max_fds - 3) 3 table) [
      | inl (r, used) ↦ absurd (used k lo hi free)
      | inr (j, r, (lo', hi', free', below')) ↦
          let same : j ≡ k = elim (Bool-cases (ltb j k)) [
            | inl a ↦ absurd (below j lo' (ltb→lt j k a) free')
            | inr a ↦ elim (Bool-cases (ltb k j)) [
              | inl b ↦ absurd (below' k lo (ltb→lt k j b) free)
              | inr b ↦ ground arith
            ]
          ] in
          rw (r, same) refl
    ]
