-- ===== src/Vfs/Path.antt =====
-- Paths of file_system/vfs/vfs.c: the split into parent and name, which `vfs_open_file`, `vfs_mkdir`
-- and `vfs_delete` share word for word, and the components that `vfs_resolve_path` walks.
pub mod Split
use acorn_os.Strings.{c_string, kstrcpy, kstrlen}
use acorn_os.Common.{
  ℕ, zero, suc, ◌+◌, ◌-◌, ◌*◌, ◌/◌, ◌%◌, ◌^◌, ◌≤◌, ◌<◌, min, ◌≡◌, refl, sym, ap, ap₂, ◌∙◌, subst,
  ◌≢◌, ◌↔◌, ◌⊎◌, inl, inr, Bool, true, false, ◌&&◌, ◌||◌, not, Option, none, some, List, [], ◌∷◌,
  ◌++◌, map, append-nil, append_assoc, arith, ltb, leb, ◌==◌, if◌then◌else◌, ltb→lt, lt→ltb, leb→le,
  ==_iff, ==_refl, Bool-cases, Option-cases, length, get_elem?, get_or, set, take, drop, replicate,
  length-append, length-set, length-take, length-drop, length-replicate, take-append-drop,
  length-map, add32, sub32, add64, sub64, update,
}

abbrev pub vfs_max_path : ℕ
vfs_max_path = 64

abbrev pub vfs_max_name : ℕ
vfs_max_name = 64

abbrev pub slash : ℕ
slash = b'/'

-- The loop from `i = n - 1` down to 0; `none` is -1.
unfoldable pub last_slash : ℕ → List ℕ → Option ℕ
last_slash zero path = none
last_slash (suc i) path =
    let rest = last_slash i path in if get_or path i 0 == slash then some i else rest

abbrev pub name_buffer : List ℕ
name_buffer = replicate vfs_max_name 0

-- The parent path and the name buffer. `none`: the parent does not fit `parent_path`, and the code
-- writes past the end of that array.
unfoldable pub split_at : Option ℕ → List ℕ → Option (List ℕ × List ℕ)
split_at none path = some (slash ∷ [], kstrcpy name_buffer (drop 1 path) vfs_max_name)
split_at (some i) path =
    if i == 0
    then some (slash ∷ [], kstrcpy name_buffer (drop 1 path) vfs_max_name)
    else if ltb i vfs_max_path
    then some (take i path, kstrcpy name_buffer (drop (i + 1) path) vfs_max_name)
    else none

unfoldable pub split_path : List ℕ → Option (List ℕ × List ℕ)
unfolding last_slash split_at kstrlen
split_path path = split_at (last_slash (kstrlen path) path) path
