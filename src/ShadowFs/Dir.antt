-- ===== src/ShadowFs/Dir.antt =====
-- Directories of file_system/shadowfs/shadowfs.c. An inode is its address, and its fields are functions
-- of it; 0 is null. The inode and the entry that `kmalloc` hands out are arguments, as the kernel
-- panics where it has none; the heap itself is in `Heap`. `now` is the clock's answer.
pub mod Names
pub mod Create
use mathlib.Core.Option
use acorn_os.Pmm.{Pmm}
use acorn_os.Strings.{kstrcpy, kstreq}
use acorn_os.ShadowFs.File.{Inode, Mount, free_blocks}
use acorn_os.Common.{
  ℕ, zero, suc, ◌+◌, ◌-◌, ◌*◌, ◌/◌, ◌%◌, ◌^◌, ◌≤◌, ◌<◌, min, ◌≡◌, refl, sym, ap, ap₂, ◌∙◌, subst,
  ◌≢◌, ◌↔◌, ◌⊎◌, inl, inr, Bool, true, false, ◌&&◌, ◌||◌, not, Option, none, some, List, [], ◌∷◌,
  ◌++◌, map, append-nil, append_assoc, arith, ltb, leb, ◌==◌, if◌then◌else◌, ltb→lt, lt→ltb, leb→le,
  ==_iff, ==_refl, Bool-cases, Option-cases, length, get_elem?, get_or, set, take, drop, replicate,
  length-append, length-set, length-take, length-drop, length-replicate, take-append-drop,
  length-map, add32, sub32, add64, sub64, update,
}

-- `shadowfs_dentry_t`
pub record Entry : Type 0 where
  pub name : List ℕ
  pub inode : ℕ

-- The `dir` part of `shadowfs_inode_t`
pub record Dir : Type 0 where
  pub entries : List Entry
  pub count : ℕ

-- A mounted file system: its account, the inodes' fields, and the physical allocator.
pub record Fs : Type 0 where
  pub mount : Mount
  pub next_inode_num : ℕ
  pub kind : ℕ → ℕ
  pub inode_num : ℕ → ℕ
  pub file : ℕ → Inode
  pub dir : ℕ → Dir
  pub pmm : Pmm

abbrev pub type_file : ℕ
type_file = 1

abbrev pub type_dir : ℕ
type_dir = 2

abbrev pub max_name : ℕ
max_name = 64

-- sizeof(shadowfs_dentry_t) + sizeof(inode_t)
abbrev pub entry_cost : ℕ
entry_cost = 80 + 64

abbrev pub empty_file : ℕ → Inode
empty_file now = record { blocks = []; block_count = 0; size = 0; modified = now; accessed = now }

-- `shadowfs_create_inode` at the address `p`. `none` is the panic at an unknown type.
unfoldable pub shadowfs_create_inode : Fs → ℕ → ℕ → ℕ → Option Fs
shadowfs_create_inode fs p kind now =
    if kind == type_file || kind == type_dir
    then some (record fs {
      next_inode_num = add32 fs.next_inode_num 1;
      kind = update fs.kind p kind;
      inode_num = update fs.inode_num p fs.next_inode_num;
      file = update fs.file p (empty_file now);
      dir = update fs.dir p (record { entries = []; count = 0 });
    })
    else none

-- The walk of `shadowfs_lookup` over the entries.
unfoldable pub find_entry : List Entry → List ℕ → Option ℕ
find_entry [] name = none
find_entry (e ∷ es) name = if kstreq e.name name then some e.inode else find_entry es name

abbrev pub or_null : Option ℕ → ℕ
or_null none = 0
or_null (some p) = p

unfoldable pub shadowfs_lookup : Fs → ℕ → List ℕ → ℕ
shadowfs_lookup fs d name = if d == 0 then 0 else or_null (find_entry (fs.dir d).entries name)

abbrev pub has_entry : List Entry → List ℕ → Bool
has_entry es name = elim (find_entry es name) [ none ↦ false | some p ↦ true ]

abbrev pub new_entry : List ℕ → ℕ → Entry
new_entry name p = record { name = kstrcpy (replicate max_name 0) name max_name; inode = p }

-- Steps 6 to 9 of `shadowfs_create`.
unfoldable pub add_entry : Fs → ℕ → List ℕ → ℕ → Fs
add_entry fs d name p =
    let dir = fs.dir d in
    record fs {
      dir =
          update fs.dir d
            (record { entries = dir.entries ++ new_entry name p ∷ []; count = add32 dir.count 1 });
      mount = record fs.mount { used = add32 fs.mount.used entry_cost };
    }

-- The new inode at the address `p`, or 0. `none` is a panic.
unfoldable pub shadowfs_create : Fs → ℕ → List ℕ → ℕ → ℕ → ℕ → Option (Fs × ℕ)
shadowfs_create fs d name kind p now =
    if leb fs.mount.quota fs.mount.used
    then some (fs, 0)
    else if has_entry (fs.dir d).entries name
    then some (fs, 0)
    else Option.map (λ fs'. (add_entry fs' d name p, p)) (shadowfs_create_inode fs p kind now)

-- Unlink the first entry of that name: its inode and the other entries.
unfoldable pub unlink : List Entry → List ℕ → Option (ℕ × List Entry)
unlink [] name = none
unlink (e ∷ es) name =
    if kstreq e.name name
    then some (e.inode, es)
    else Option.map (λ r. (r.0, e ∷ r.1)) (unlink es name)

-- `true` is the result 0, `false` is -1.
unfoldable pub shadowfs_delete : Fs → ℕ → List ℕ → Fs × Bool
shadowfs_delete fs d name = elim (unlink (fs.dir d).entries name) [
  | none ↦ (fs, false)
  | some (p, entries) ↦ (
    record fs {
      dir = update fs.dir d (record { entries = entries; count = sub32 (fs.dir d).count 1 });
      pmm = if fs.kind p == type_file then free_blocks (fs.file p).blocks fs.pmm else fs.pmm;
      mount = record fs.mount { used = sub32 fs.mount.used entry_cost };
    },
    true,
  )
]

unfoldable pub shadowfs_mkdir : Fs → ℕ → List ℕ → ℕ → ℕ → Option (Fs × Bool)
shadowfs_mkdir fs d name p now =
    Option.map (λ r. (r.0, not (r.1 == 0))) (shadowfs_create fs d name type_dir p now)

-- The walk of `shadowfs_readdir`, at `index`.
unfoldable pub nth_entry : List Entry → ℕ → ℕ → Option Entry
nth_entry [] index position = none
nth_entry (e ∷ es) index position =
    if index == position then some e else nth_entry es (add32 index 1) position

-- The entry, its type, and the next position; `none` is the end of the directory.
unfoldable pub shadowfs_readdir : Fs → ℕ → ℕ → Option (Entry × ℕ × ℕ)
shadowfs_readdir fs d position =
    Option.map (λ e. (e, fs.kind e.inode, add32 position 1))
      (nth_entry (fs.dir d).entries 0 position)
