-- ===== src/Vfs/Mounts.antt =====
-- The mount table of file_system/vfs/vfs.c. A pointer is its address, and 0 is null.
pub mod Longest
use acorn_os.Strings.{c_string, kstrcpy, kstrlen, kstreq}
use acorn_os.Common.{
  ℕ, zero, suc, ◌+◌, ◌-◌, ◌*◌, ◌/◌, ◌%◌, ◌^◌, ◌≤◌, ◌<◌, min, ◌≡◌, refl, sym, ap, ap₂, ◌∙◌, subst,
  ◌≢◌, ◌↔◌, ◌⊎◌, inl, inr, Bool, true, false, ◌&&◌, ◌||◌, not, Option, none, some, List, [], ◌∷◌,
  ◌++◌, map, append-nil, append_assoc, arith, ltb, leb, ◌==◌, if◌then◌else◌, ltb→lt, lt→ltb, leb→le,
  ==_iff, ==_refl, Bool-cases, Option-cases, length, get_elem?, get_or, set, take, drop, replicate,
  length-append, length-set, length-take, length-drop, length-replicate, take-append-drop,
  length-map, add32, sub32, add64, sub64, update,
}

abbrev pub vfs_max_mounts : ℕ
vfs_max_mounts = 16

abbrev pub vfs_max_path : ℕ
vfs_max_path = 64

-- `superblock_t`
pub record Superblock : Type 0 where
  pub mount_point : List ℕ
  pub root : ℕ
  pub ops : ℕ
  pub private_data : ℕ
  pub flags : ℕ

-- The loop over `mount_table` that looks for a duplicate.
unfoldable pub is_mounted : List Superblock → List ℕ → Bool
is_mounted [] path = false
is_mounted (sb ∷ sbs) path = kstreq sb.mount_point path || is_mounted sbs path

-- The table is the list of its first `mount_count` entries; `none` is the result -1.
unfoldable pub vfs_mount : List Superblock → List ℕ → ℕ → ℕ → Option (List Superblock)
unfolding is_mounted
vfs_mount table path ops private_data =
    if leb vfs_max_mounts (length table)
    then none
    else if is_mounted table path
    then none
    else some (
        table
        ++ record {
          mount_point = kstrcpy (replicate vfs_max_path 0) path vfs_max_path;
          root = 0;
          ops = ops;
          private_data = private_data;
          flags = 0;
        }
          ∷ [])

-- `mount[j] == path[j]` for the next `n` characters
unfoldable pub mount_matches : ℕ → List ℕ → List ℕ → Bool
mount_matches zero mount path = true
mount_matches (suc n) mount path =
    let rest = mount_matches n (drop 1 mount) (drop 1 path) in
    if get_or mount 0 0 == get_or path 0 0 then rest else false

-- The best match so far: its index in the table and its length. `none` has length -1.
abbrev pub Best : Type 0
Best = Option (ℕ × ℕ)

abbrev pub is_longer : ℕ → Best → Bool
is_longer n none = true
is_longer n (some (i, best_len)) = ltb best_len n

unfoldable pub consider : Superblock → ℕ → List ℕ → Best → Best
unfolding mount_matches kstrlen
consider sb i path best =
    let mlen = kstrlen sb.mount_point in
    if mount_matches mlen sb.mount_point path && is_longer mlen best then some (i, mlen) else best

unfoldable pub find_from : List Superblock → ℕ → List ℕ → Best → Best
unfolding consider
find_from [] i path best = best
find_from (sb ∷ sbs) i path best = find_from sbs (i + 1) path (consider sb i path best)

abbrev index_of : Best → Option ℕ
index_of none = none
index_of (some (i, n)) = some i

-- The index of the superblock that owns the path.
unfoldable pub vfs_find_mount : List Superblock → List ℕ → Option ℕ
unfolding find_from index_of
vfs_find_mount table path = index_of (find_from table 0 path none)
