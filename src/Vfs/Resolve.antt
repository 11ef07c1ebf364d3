-- ===== src/Vfs/Resolve.antt =====
-- The walk of `vfs_resolve_path` of file_system/vfs/vfs.c over the components of a path.
pub mod Walk
use acorn_os.Strings.{c_string, kstreq, kstrlen}
use acorn_os.Vfs.Mounts.{Superblock, vfs_find_mount}
use acorn_os.Vfs.Path.{slash, vfs_max_name}
use acorn_os.Common.{
  ℕ, zero, suc, ◌+◌, ◌-◌, ◌*◌, ◌/◌, ◌%◌, ◌^◌, ◌≤◌, ◌<◌, min, ◌≡◌, refl, sym, ap, ap₂, ◌∙◌, subst,
  ◌≢◌, ◌↔◌, ◌⊎◌, inl, inr, Bool, true, false, ◌&&◌, ◌||◌, not, Option, none, some, List, [], ◌∷◌,
  ◌++◌, map, append-nil, append_assoc, arith, ltb, leb, ◌==◌, if◌then◌else◌, ltb→lt, lt→ltb, leb→le,
  ==_iff, ==_refl, Bool-cases, Option-cases, length, get_elem?, get_or, set, take, drop, replicate,
  length-append, length-set, length-take, length-drop, length-replicate, take-append-drop,
  length-map, add32, sub32, add64, sub64, update,
}

-- The inner loop: the characters up to the next slash or the end, and what is behind them.
unfoldable pub take_component : List ℕ → List ℕ × List ℕ
take_component [] = ([], [])
take_component (c ∷ cs) =
    let (name, rest) = take_component cs in
    if c == 0 || c == slash then ([], c ∷ cs) else (c ∷ name, rest)

-- `if(*path == '/') path++`
abbrev pub skip_slash : List ℕ → List ℕ
skip_slash [] = []
skip_slash (c ∷ cs) = if c == slash then cs else c ∷ cs

-- What a walk ends in. `overflow`: a component does not fit `char component[VFS_MAX_NAME]`, and the
-- code writes past its end; `no_fuel` is a loop cut short by the model.
pub data Walked : Type 0 where
  found : ℕ → Walked
  missing overflow no_fuel : Walked

abbrev is_end : List ℕ → Bool
is_end [] = true
is_end (c ∷ cs) = c == 0

-- The operations that the walk asks of file systems: whether an inode has a `lookup`, and what it
-- answers, 0 for null.
pub record Lookups : Type 0 where
  pub has_lookup : ℕ → Bool
  pub lookup : ℕ → List ℕ → ℕ

-- `while(*path)`
unfoldable pub walk : Lookups → ℕ → ℕ → List ℕ → Walked
unfolding take_component
walk ops zero current path = no_fuel
walk ops (suc fuel) current path = elim (is_end path) [
  | true ↦ found current
  | false ↦
      let (name, rest) = take_component path in
      elim (leb vfs_max_name (length name)) [
        | true ↦ overflow
        | false ↦ elim (length name == 0) [
          | true ↦ walk ops fuel current (skip_slash rest)
          | false ↦ elim (ops.has_lookup current) [
            | false ↦ missing
            | true ↦
                let next = ops.lookup current name in
                elim (next == 0) [ true ↦ missing | false ↦ walk ops fuel next (skip_slash rest) ]
          ]
        ]
      ]
]

abbrev is_root_path : List ℕ → Bool
is_root_path path = get_or path 0 0 == slash && get_or path 1 0 == 0

-- From the root of the file system that owns the path, along the path behind its mount point.
unfoldable pub resolve_in : Lookups → Superblock → List ℕ → Walked
unfolding walk
resolve_in ops sb path =
    if sb.root == 0
    then missing
    else if kstreq path sb.mount_point
    then found sb.root
    else if is_root_path path
    then found sb.root
    else walk ops (suc (length path)) sb.root (skip_slash (drop (kstrlen sb.mount_point) path))

unfoldable pub vfs_resolve_path : Lookups → List Superblock → List ℕ → Walked
unfolding resolve_in
vfs_resolve_path ops table path = elim (vfs_find_mount table path) [
  | none ↦ missing
  | some i ↦ elim (get_elem? table i) [ none ↦ missing | some sb ↦ resolve_in ops sb path ]
]
