-- ===== src/ShadowFs/Dir/Create.antt =====
-- What `shadowfs_lookup` and `shadowfs_delete` find after `shadowfs_create`.

use acorn_os.Strings.{c_string, kstreq}
use acorn_os.Strings.Compare.{IsBytes, kstreq_iff}
use acorn_os.ShadowFs.File.{free_blocks}
use acorn_os.ShadowFs.Dir.{
  Entry, Fs, type_file, type_dir, max_name, entry_cost, empty_file, shadowfs_create_inode,
  find_entry, shadowfs_lookup, or_null, has_entry, new_entry, add_entry, shadowfs_create, unlink,
  shadowfs_delete,
}
use acorn_os.ShadowFs.Dir.Names.{kstreq-new_entry}
use acorn_os.Common.{
  ℕ, ◌^◌, ◌<◌, ◌≡◌, refl, sym, ap, ◌∙◌, ◌≢◌, ◌⊎◌, inl, inr, true, false, ◌||◌, none, some, List, [],
  ◌∷◌, ◌++◌, arith, leb, ◌==◌, if◌then◌else◌, ==_refl, Bool-cases, length, add32, sub32, update,
}

find_entry-snoc :
    (es : List Entry) (e : Entry) (m : List ℕ)
    → kstreq e.name m ≡ false
    → find_entry (es ++ e ∷ []) m ≡ find_entry es m
unfolding find_entry
find_entry-snoc [] e m h = rw h refl
find_entry-snoc (x ∷ es) e m h = rw (find_entry-snoc es e m h) refl

find_entry-last :
    (es : List Entry) (e : Entry) (m : List ℕ)
    → find_entry es m ≡ none
    → kstreq e.name m ≡ true
    → (find_entry (es ++ e ∷ []) m ≡ some e.inode) × (unlink (es ++ e ∷ []) m ≡ some (e.inode, es))
unfolding find_entry unlink
find_entry-last [] e m n h = (rw h refl, rw h refl)
find_entry-last (x ∷ es) e m n h = elim (Bool-cases (kstreq x.name m)) [
  | inl y ↦ absurd (ground arith)
  | inr y ↦
      let n' : find_entry es m ≡ none = ground arith in
      let (found, cut) = find_entry-last es e m n' h in (rw (y, found) refl, rw (y, cut) refl)
]

abbrev created : Fs → ℕ → ℕ → ℕ → Fs
created fs p kind now = record fs {
  next_inode_num = add32 fs.next_inode_num 1;
  kind = update fs.kind p kind;
  inode_num = update fs.inode_num p fs.next_inode_num;
  file = update fs.file p (empty_file now);
  dir = update fs.dir p (record { entries = []; count = 0 });
}

create_eq :
    (fs : Fs) (d : ℕ) (name : List ℕ) (kind p now : ℕ)
    → fs.mount.used < fs.mount.quota
    → find_entry (fs.dir d).entries name ≡ none
    → (kind ≡ type_file) ⊎ (kind ≡ type_dir)
    → shadowfs_create fs d name kind p now ≡ some (add_entry (created fs p kind now) d name p, p)
unfolding shadowfs_create shadowfs_create_inode
create_eq fs d name kind p now room absent k =
    let a : leb fs.mount.quota fs.mount.used ≡ false = ground arith in
    let b : has_entry (fs.dir d).entries name ≡ false = rw (absent, has_entry) refl in
    let c : (kind == type_file || kind == type_dir) ≡ true = ground arith in rw (a, b, c) refl

-- The fields of the directory `d` behind a creation in it.
dir-create :
    (fs : Fs) (d : ℕ) (name : List ℕ) (kind p now : ℕ)
    → p ≢ d
    → (add_entry (created fs p kind now) d name p).dir d ≡ record {
      entries = (fs.dir d).entries ++ new_entry name p ∷ [];
      count = add32 (fs.dir d).count 1;
    }
unfolding add_entry
dir-create fs d name kind p now ne =
    let other : (p == d) ≡ false = ground arith in rw (==_refl d, other) refl

shadowfs_lookup_eq :
    (fs : Fs) (d : ℕ) (m : List ℕ) (es : List Entry)
    → d ≢ 0
    → (fs.dir d).entries ≡ es
    → shadowfs_lookup fs d m ≡ or_null (find_entry es m)
unfolding shadowfs_lookup
shadowfs_lookup_eq fs d m es dz e = let live : (d == 0) ≡ false = ground arith in rw (live, e) refl

shadowfs_delete_eq :
    (fs : Fs) (d : ℕ) (name : List ℕ) (p : ℕ) (es : List Entry)
    → unlink (fs.dir d).entries name ≡ some (p, es)
    → (fs' : Fs) × (shadowfs_delete fs d name ≡ (fs', true))
      × (fs'.dir d ≡ record { entries = es; count = sub32 (fs.dir d).count 1 })
      × (fs'.mount ≡ record fs.mount { used = sub32 fs.mount.used entry_cost })
unfolding shadowfs_delete
shadowfs_delete_eq fs d name p es e = (
  record fs {
    dir = update fs.dir d (record { entries = es; count = sub32 (fs.dir d).count 1 });
    pmm = if fs.kind p == type_file then free_blocks (fs.file p).blocks fs.pmm else fs.pmm;
    mount = record fs.mount { used = sub32 fs.mount.used entry_cost };
  },
  rw (e, shadowfs_delete) refl,
  rw (==_refl d) refl,
  refl,
)

used-create :
    (fs : Fs) (d : ℕ) (name : List ℕ) (kind p now : ℕ)
    → fs.mount.used < 2 ^ 32
    → sub32 (add_entry (created fs p kind now) d name p).mount.used entry_cost ≡ fs.mount.used
unfolding add_entry
used-create fs d name kind p now w = omega arith

mount-create :
    (fs : Fs) (d : ℕ) (name : List ℕ) (kind p now : ℕ)
    → sub32 (add_entry (created fs p kind now) d name p).mount.used entry_cost ≡ fs.mount.used
    → record (add_entry (created fs p kind now) d name p).mount {
      used = sub32 (add_entry (created fs p kind now) d name p).mount.used entry_cost;
    }
      ≡ fs.mount
unfolding add_entry
mount-create fs d name kind p now e = ap (λ n. record { quota = fs.mount.quota; used = n }) e

-- `shadowfs_create` in a directory that has no entry of that name, of a file or a directory, while
-- the mount is below its quota, with a name of less than 64 bytes and a fresh inode address:
-- it succeeds; the name is then looked up to the new inode, and every name that is another string to
-- what it was; and `shadowfs_delete` of the name succeeds and brings the directory's entries and
-- count and the mount's account back to what they were.
pub shadowfs_create_lem :
    (fs : Fs) (d : ℕ) (name : List ℕ) (kind p now : ℕ)
    → d ≢ 0
    → p ≢ d
    → IsBytes name
    → length (c_string name) < max_name
    → (kind ≡ type_file) ⊎ (kind ≡ type_dir)
    → fs.mount.used < fs.mount.quota
    → fs.mount.used < 2 ^ 32
    → (fs.dir d).count < 2 ^ 32
    → find_entry (fs.dir d).entries name ≡ none
    → (fs' : Fs) × (shadowfs_create fs d name kind p now ≡ some (fs', p))
      × (shadowfs_lookup fs' d name ≡ p)
      × ((m : List ℕ) → kstreq name m ≡ false → shadowfs_lookup fs' d m ≡ shadowfs_lookup fs d m)
      × ((fs'' : Fs) × (shadowfs_delete fs' d name ≡ (fs'', true))
          × (fs''.dir d ≡ fs.dir d)
          × (fs''.mount ≡ fs.mount))
shadowfs_create_lem fs d name kind p now dz ne bytes short k room w c absent =
    let fs' = add_entry (created fs p kind now) d name p in
    let es = (fs.dir d).entries in
    let e = new_entry name p in
    let entries : (fs'.dir d).entries ≡ es ++ e ∷ [] =
      ap (λ x. x.entries) (dir-create fs d name kind p now ne) in
    let self : kstreq e.name name ≡ true =
      kstreq-new_entry name name p short ∙ (kstreq_iff name name bytes bytes).1 refl in
    let (found, cut) = find_entry-last es e name absent self in
    let unlinked : unlink (fs'.dir d).entries name ≡ some (p, es) = rw entries cut in
    let (fs'', deleted, dir, mount) = shadowfs_delete_eq fs' d name p es unlinked in
    let count : sub32 (fs'.dir d).count 1 ≡ (fs.dir d).count =
      ap (λ x. sub32 x.count 1) (dir-create fs d name kind p now ne) ∙ omega arith in
    let used : sub32 fs'.mount.used entry_cost ≡ fs.mount.used =
      used-create fs d name kind p now w in
    (
      fs',
      create_eq fs d name kind p now room absent k,
      shadowfs_lookup_eq fs' d name (es ++ e ∷ []) dz entries ∙ ap or_null found,
      λ m other.
          shadowfs_lookup_eq fs' d m (es ++ e ∷ []) dz entries
          ∙ ap or_null (find_entry-snoc es e m (kstreq-new_entry name m p short ∙ other))
          ∙ sym (shadowfs_lookup_eq fs d m es dz refl),
      (
        fs'',
        deleted,
        dir ∙ ap (λ n. record { entries = es; count = n }) count,
        mount ∙ mount-create fs d name kind p now used,
      ),
    )
