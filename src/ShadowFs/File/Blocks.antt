-- ===== src/ShadowFs/File/Blocks.antt =====
-- The bytes that a chain of blocks of file_system/shadowfs/shadowfs.c holds.
use acorn_os.ShadowFs.File.{Block, Inode, block_size, copy_in, last_used, fill_last}
use acorn_os.Common.{
  take-set_self, ℕ, suc, ◌+◌, ◌^◌, ◌≤◌, ◌<◌, ◌≡◌, refl, sym, ap, ◌∙◌, ◌≢◌, List, [], ◌∷◌, ◌++◌,
  append-nil, append_assoc, arith, length, set, take, length-append, length-set, length-take, add32,
}

abbrev pub contents : List Block → List ℕ
contents [] = []
contents (b ∷ bs) = take b.used b.data_bytes ++ contents bs

-- Every block has a whole page, and uses no more of it.
abbrev pub AreBlocks : List Block → Type 0
AreBlocks [] = Unit {0}
AreBlocks (b ∷ bs) = (length b.data_bytes ≡ block_size) × (b.used ≤ block_size) × AreBlocks bs

-- A file whose recorded size is the number of bytes that its blocks hold.
pub record IsFile (i : Inode) : Type 0 where
  pub blocks_ok : AreBlocks i.blocks
  pub sized : i.size ≡ length (contents i.blocks)
  pub small : i.size < 2 ^ 32

pub length-copy_in : (src bytes : List ℕ) (off : ℕ) → length (copy_in bytes off src) ≡ length bytes
unfolding copy_in
length-copy_in [] bytes off = refl
length-copy_in (x ∷ xs) bytes off =
    length-copy_in xs (set bytes off x) (off + 1) ∙ length-set bytes off x

pub take-copy_in :
    (src bytes : List ℕ) (off n : ℕ)
    → n ≡ off + length src
    → n ≤ length bytes
    → take n (copy_in bytes off src) ≡ take off bytes ++ src
unfolding copy_in
take-copy_in [] bytes off n e h =
    ap (λ k. take k bytes) {x = n} {y = off} (omega arith) ∙ sym (append-nil (take off bytes))
take-copy_in (x ∷ xs) bytes off n e h =
    take-copy_in xs (set bytes off x) (off + 1) n (omega arith)
      (omega (arith, length-set bytes off x))
    ∙ ap (λ l. l ++ xs) first
    ∙ append_assoc (take off bytes) (x ∷ []) xs
  where
    first : take (off + 1) (set bytes off x) ≡ take off bytes ++ x ∷ []
    first =
        ap (λ k. take k (set bytes off x)) {x = off + 1} {y = suc off} (omega arith)
        ∙ take-set_self bytes off x (omega arith)

pub length-contents-cons :
    (b : Block) (bs : List Block)
    → length b.data_bytes ≡ block_size
    → b.used ≤ block_size
    → length (contents (b ∷ bs)) ≡ b.used + length (contents bs)
length-contents-cons b bs l u =
    omega (
      arith,
      length-append (take b.used b.data_bytes) (contents bs),
      length-take b.used b.data_bytes,
    )

pub contents-append : (bs cs : List Block) → contents (bs ++ cs) ≡ contents bs ++ contents cs
contents-append [] cs = refl
contents-append (b ∷ bs) cs =
    ap (◌++◌ (take b.used b.data_bytes)) (contents-append bs cs)
    ∙ sym (append_assoc (take b.used b.data_bytes) (contents bs) (contents cs))

pub AreBlocks-append : (bs cs : List Block) → AreBlocks bs → AreBlocks cs → AreBlocks (bs ++ cs)
AreBlocks-append [] cs p q = q
AreBlocks-append (b ∷ bs) cs p q = (p.0, p.1, AreBlocks-append bs cs p.2 q)

-- Filling the last block appends the source to what the chain holds.
pub contents-fill_last :
    (bs : List Block) (src : List ℕ)
    → AreBlocks bs
    → bs ≢ []
    → last_used bs + length src ≤ block_size
    → (contents (fill_last bs src) ≡ contents bs ++ src)
      × AreBlocks (fill_last bs src)
      × (length (fill_last bs src) ≡ length bs)
unfolding fill_last
contents-fill_last [] src p ne h = absurd (ne refl)
contents-fill_last (b ∷ []) src p ne h =
    let whole : add32 b.used (length src) ≡ b.used + length src = omega arith in
    (
      append-nil (take (add32 b.used (length src)) (copy_in b.data_bytes b.used src))
          ∙ take-copy_in src b.data_bytes b.used (add32 b.used (length src)) whole
              (omega (arith, p.0))
          ∙ ap (λ l. l ++ src) (sym (append-nil (take b.used b.data_bytes))),
      (length-copy_in src b.data_bytes b.used ∙ p.0, omega arith, tt),
      refl,
    )
contents-fill_last (b ∷ c ∷ bs) src p ne h =
    let (e, q, l) = contents-fill_last (c ∷ bs) src p.2 (λ z. cc) h in
    (
      ap (◌++◌ (take b.used b.data_bytes)) e
          ∙ sym (append_assoc (take b.used b.data_bytes) (contents (c ∷ bs)) src),
      (p.0, p.1, q),
      ap suc l,
    )
