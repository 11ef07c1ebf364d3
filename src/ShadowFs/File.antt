-- ===== src/ShadowFs/File.antt =====
-- Files of file_system/shadowfs/shadowfs.c: write, read and truncate over a chain of 4 KB blocks.
-- A file's inode and its private data are one record. The pages come from the physical allocator of
-- `Pmm`; `memory p` is what the page at physical address `p` holds when it is handed out. The block
-- headers, which the code takes from the kernel heap, are values here, and the checks of null
-- pointers and the log lines have no counterpart. `now` is the clock's answer.
pub mod Blocks
pub mod Write
pub mod Read
pub mod Truncate
use acorn_os.Pmm.{Pmm, pmm_alloc, pmm_free}
use acorn_os.Common.{
  ℕ, zero, suc, ◌+◌, ◌-◌, ◌*◌, ◌/◌, ◌%◌, ◌^◌, ◌≤◌, ◌<◌, min, ◌≡◌, refl, sym, ap, ap₂, ◌∙◌, subst,
  ◌≢◌, ◌↔◌, ◌⊎◌, inl, inr, Bool, true, false, ◌&&◌, ◌||◌, not, Option, none, some, List, [], ◌∷◌,
  ◌++◌, map, append-nil, append_assoc, arith, ltb, leb, ◌==◌, if◌then◌else◌, ltb→lt, lt→ltb, leb→le,
  ==_iff, ==_refl, Bool-cases, Option-cases, length, get_elem?, get_or, set, take, drop, replicate,
  length-append, length-set, length-take, length-drop, length-replicate, take-append-drop,
  length-map, add32, sub32, add64, sub64, update,
}

-- `shadowfs_block_t`: `page` is the physical address behind `data`.
pub record Block : Type 0 where
  pub page : ℕ
  pub data_bytes : List ℕ
  pub used : ℕ

abbrev pub block_size : ℕ
block_size = 4096

-- sizeof(shadowfs_block_t)
abbrev pub block_header : ℕ
block_header = 24

-- `inode_t` of a file, with its `shadowfs_inode_t`
pub record Inode : Type 0 where
  pub blocks : List Block
  pub block_count : ℕ
  pub size : ℕ
  pub modified : ℕ
  pub accessed : ℕ

-- The part of `shadowfs_mount_t` that accounts for space
pub record Mount : Type 0 where
  pub quota : ℕ
  pub used : ℕ

-- A kernel panic is an outcome; `no_fuel` is a loop cut short by the model.
pub data Run {ℓ} (A : Type ℓ) : Type ℓ where
  ok : A → Run A
  panic : Run A
  no_fuel : Run A

-- The copy loop of the write: `data[off + i] = src[i]`.
unfoldable pub copy_in : List ℕ → ℕ → List ℕ → List ℕ
copy_in bytes off [] = bytes
copy_in bytes off (x ∷ xs) = copy_in (set bytes off x) (off + 1) xs

-- `!last || last->used == SHADOWFS_BLOCK_SIZE`
abbrev pub needs_block : List Block → Bool
needs_block [] = true
needs_block (b ∷ []) = b.used == block_size
needs_block (b ∷ c ∷ bs) = needs_block (c ∷ bs)

abbrev pub last_used : List Block → ℕ
last_used [] = 0
last_used (b ∷ []) = b.used
last_used (b ∷ c ∷ bs) = last_used (c ∷ bs)

-- Copy `src` into the last block, behind what it holds.
unfoldable pub fill_last : List Block → List ℕ → List Block
unfolding copy_in
fill_last [] src = []
fill_last (b ∷ []) src =
    record b { data_bytes = copy_in b.data_bytes b.used src; used = add32 b.used (length src) } ∷ []
fill_last (b ∷ c ∷ bs) src = b ∷ fill_last (c ∷ bs) src

-- What the write loop changes.
pub record Writing : Type 0 where
  pub blocks : List Block
  pub block_count : ℕ
  pub used : ℕ
  pub pmm : Pmm

-- Link a new block behind the chain, on a page at `p`, and charge it to the mount.
unfoldable pub add_block : (ℕ → List ℕ) → ℕ → Pmm → Writing → Writing
add_block memory p pmm w = record {
  blocks = w.blocks ++ record { page = p; data_bytes = memory p; used = 0 } ∷ [];
  block_count = add32 w.block_count 1;
  used = add32 w.used block_header;
  pmm = pmm;
}

-- The block to write to: the last one, or a new one.
unfoldable pub with_room : (ℕ → List ℕ) → Writing → Option Writing
unfolding add_block
with_room memory w =
    if needs_block w.blocks
    then elim (pmm_alloc w.pmm) [ none ↦ none | some (p, pmm) ↦ some (add_block memory p pmm w) ]
    else some w

-- How much of the source goes to the last block.
unfoldable pub chunk : List Block → List ℕ → ℕ
chunk bs src = min (length src) (sub32 block_size (last_used bs))

-- `while(remaining > 0)`: `src` is what remains, `written` the count so far.
unfoldable pub write_loop : (ℕ → List ℕ) → ℕ → ℕ → Writing → List ℕ → ℕ → Run (Writing × ℕ)
unfolding with_room chunk fill_last
write_loop memory quota zero w src written = no_fuel
write_loop memory quota (suc fuel) w [] written = ok (w, written)
write_loop memory quota (suc fuel) w (x ∷ xs) written = elim (leb quota w.used) [
  | true ↦ ok (w, written)
  | false ↦ elim (with_room memory w) [
    | none ↦ panic
    | some w' ↦
        let n = chunk w'.blocks (x ∷ xs) in
        write_loop memory quota fuel (record w' { blocks = fill_last w'.blocks (take n (x ∷ xs)) })
          (drop n (x ∷ xs)) (add32 written n)
  ]
]

-- The state of an open file: its inode, the mount, the descriptor's position and the page allocator.
pub record Env : Type 0 where
  pub inode : Inode
  pub mount : Mount
  pub position : ℕ
  pub pmm : Pmm

unfoldable pub finish_write : Env → ℕ → Writing × ℕ → Env × ℕ
finish_write e now (w, written) = (
  record {
    inode = record {
      blocks = w.blocks;
      block_count = w.block_count;
      size = add32 e.inode.size written;
      modified = if ltb 0 written then now else e.inode.modified;
      accessed = e.inode.accessed;
    };
    mount = record { quota = e.mount.quota; used = w.used };
    position = add32 e.position written;
    pmm = w.pmm;
  },
  written,
)

abbrev pub map_run {ℓ κ} : {A : Type ℓ} {B : Type κ} → (A → B) → Run A → Run B
map_run f (ok a) = ok (f a)
map_run f panic = panic
map_run f no_fuel = no_fuel

-- The fuel is one round for each byte, and one to stop.
unfoldable pub shadowfs_write : (ℕ → List ℕ) → ℕ → Env → List ℕ → Run (Env × ℕ)
unfolding write_loop finish_write
shadowfs_write memory now e [] = ok (e, 0)
shadowfs_write memory now e (x ∷ xs) = map_run (finish_write e now) (
    write_loop memory e.mount.quota (suc (length (x ∷ xs)))
      (record {
        blocks = e.inode.blocks;
        block_count = e.inode.block_count;
        used = e.mount.used;
        pmm = e.pmm;
      })
      (x ∷ xs) 0)

-- The bytes that one block adds to the read.
abbrev pub block_read : Block → ℕ → ℕ → ℕ → List ℕ
block_read b start offset remaining =
    if ltb offset (add32 start b.used)
    then take (min remaining (sub32 b.used (sub32 offset start)))
        (drop (sub32 offset start) b.data_bytes)
    else []

-- The walk of the read over the blocks: the bytes put into the buffer.
unfoldable pub read_loop : List Block → ℕ → ℕ → ℕ → List ℕ
read_loop [] start offset remaining = []
read_loop (b ∷ bs) start offset remaining =
    let got = block_read b start offset remaining in
    let rest =
      read_loop bs (add32 start b.used) (add32 offset (length got))
        (sub32 remaining (length got)) in
    if remaining == 0 then [] else got ++ rest

-- How much the read asks for once it is held to the end of the file.
abbrev pub clip : Inode → ℕ → ℕ → ℕ
clip i position size = if ltb i.size (add32 position size) then sub32 i.size position else size

-- The bytes read, the count returned and the new state.
unfoldable pub shadowfs_read : ℕ → Env → ℕ → Env × List ℕ
unfolding read_loop
shadowfs_read now e size =
    let remaining = clip e.inode e.position size in
    let out = read_loop e.inode.blocks 0 e.position remaining in
    if size == 0 || remaining == 0 then (e, []) else (
      record e {
        position = add32 e.position (length out);
        inode = record e.inode { accessed = if ltb 0 (length out) then now else e.inode.accessed };
      },
      out,
    )

-- What truncation keeps of a chain, and the blocks that it frees.
unfoldable pub truncate_blocks : List Block → ℕ → List Block × List Block
truncate_blocks [] r = ([], [])
truncate_blocks (b ∷ bs) r =
    let (kept, freed) = truncate_blocks bs (if ltb r b.used then 0 else r - b.used) in
    if r == 0
    then (kept, b ∷ freed)
    else if ltb r b.used
    then (record b { used = r } ∷ kept, freed)
    else (b ∷ kept, freed)

-- Give the pages of freed blocks back, and take their headers off the mount's account.
unfoldable pub free_blocks : List Block → Pmm → Pmm
free_blocks [] m = m
free_blocks (b ∷ bs) m = free_blocks bs (pmm_free m b.page)

unfoldable pub refund : List Block → ℕ → ℕ
refund [] used = used
refund (b ∷ bs) used = refund bs (sub32 used block_header)

-- `block_count` is set to 0, or decremented for each block freed.
unfoldable pub discount : List Block → ℕ → ℕ
discount [] n = n
discount (b ∷ bs) n = discount bs (sub32 n 1)

unfoldable pub shadowfs_truncate : Env → ℕ → Env
unfolding truncate_blocks free_blocks refund discount
shadowfs_truncate e size =
    let (kept, freed) =
      if size == 0 then ([], e.inode.blocks) else truncate_blocks e.inode.blocks size in
    record e {
      inode = record e.inode {
        blocks = kept;
        block_count = if size == 0 then 0 else discount freed e.inode.block_count;
        size = size;
      };
      mount = record e.mount { used = refund freed e.mount.used };
      pmm = free_blocks freed e.pmm;
    }
