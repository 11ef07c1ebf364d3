-- ===== src/ShadowFs/File/Read.antt =====
-- `shadowfs_read` of file_system/shadowfs/shadowfs.c.
use native.Mathlib.Decide.{dec_lt}
use acorn_os.ShadowFs.File.{
  ok, shadowfs_write, block_header, Block, Inode, Env, block_size, clip, block_read, read_loop,
  shadowfs_read,
}
use acorn_os.ShadowFs.File.Write.{Wrote, shadowfs_write_lem}
use acorn_os.ShadowFs.File.Blocks.{contents, AreBlocks, IsFile, length-contents-cons}
use mathlib.Core.Path.{subst₂}
use acorn_os.Common.{
  take-take_le, take-all, take-take, drop-append_ge, drop-take, drop-append_le, take_zero,
  take_of_nil, drop_of_nil, drop-all, ℕ, zero, suc, ◌+◌, ◌-◌, ◌^◌, ◌≤◌, ◌<◌, min, ◌≡◌, refl, sym,
  ap, ap₂, ◌∙◌, inl, inr, true, ◌||◌, List, [], ◌∷◌, ◌++◌, arith, ltb, ◌==◌, Bool-cases, length,
  take, drop, length-take, length-drop, add32, sub32,
}

-- A window of two lists laid end to end, by where it starts and ends in the first.
window-append :
    (xs ys : List ℕ) (k n : ℕ)
    → k ≤ length xs
    → take n (drop k (xs ++ ys)) ≡ take n (drop k xs) ++ take (n - length (drop k xs)) ys
window-append xs ys k n h = rw (drop-append_le k xs ys h) (take_of_append (drop k xs) ys n)
  where
    take_of_append :
        (us vs : List ℕ) (m : ℕ) → take m (us ++ vs) ≡ take m us ++ take (m - length us) vs
    take_of_append [] vs m =
        ap (λ j. take j vs) {x = m} {y = m - 0} (omega arith)
        ∙ ap (λ l. l ++ take (m - 0) vs) (sym (take_of_nil m))
    take_of_append (u ∷ us) vs zero = sym (take_zero (0 - suc (length us)) vs (omega arith))
    take_of_append (u ∷ us) vs (suc m) = ap (◌∷◌ u) (
        take_of_append us vs m
        ∙ ap (λ j. take m us ++ take j vs) {x = m - length us} {y = suc m - suc (length us)}
            (omega arith))

-- What one block adds is the window of its bytes that the read asks for.
block_read_lem :
    (b : Block) (start offset remaining : ℕ)
    → length b.data_bytes ≡ block_size
    → b.used ≤ block_size
    → start ≤ offset
    → start + b.used < 2 ^ 32
    → block_read b start offset remaining
      ≡ take remaining (drop (offset - start) (take b.used b.data_bytes))
block_read_lem b start offset remaining l u s w =
    elim (Bool-cases (ltb offset (add32 start b.used))) [
      | inl inside ↦
          rw inside
            let k : sub32 offset start ≡ offset - start = ground arith in
              let m : min remaining (sub32 b.used (sub32 offset start))
                  ≡ min remaining (b.used - (offset - start)) =
                ground arith in
              rw (m, k)
                (sym (
                  ap (take remaining) (drop-take (offset - start) b.used b.data_bytes)
                  ∙ take-take remaining (b.used - (offset - start))
                      (drop (offset - start) b.data_bytes)))
      | inr past ↦ rw past (
          sym (
            ap (take remaining) (
              drop-all (offset - start) (take b.used b.data_bytes)
                (ground (arith, length-take b.used b.data_bytes)))
            ∙ take_of_nil remaining))
    ]

read_loop-zero : (bs : List Block) (start offset : ℕ) → read_loop bs start offset 0 ≡ []
unfolding read_loop
read_loop-zero [] start offset = refl
read_loop-zero (b ∷ bs) start offset = refl

-- One block and the blocks behind it, where the read starts past the block, ends inside it, or
-- takes the rest of it.
module _ (b : Block) (bs : List Block) (start offset remaining : ℕ) where
  abbrev rest_after : ℕ → List ℕ
  rest_after n = read_loop bs (add32 start b.used) (add32 offset n) (sub32 remaining n)

  abbrev bytes : List ℕ
  bytes = take b.used b.data_bytes

  abbrev wanted : List ℕ
  wanted = take remaining (drop (offset - start) (bytes ++ contents bs))

  -- What the rest of the walk gives after `n` bytes of this block, once it is known.
  abbrev KnownRest : Type 0
  KnownRest =
      (n : ℕ)
      → start + b.used ≤ offset + n
      → n ≤ remaining
      → offset + n < 2 ^ 32
      → rest_after n ≡ take (remaining - n) (drop (offset + n - (start + b.used)) (contents bs))

  read_cons :
      (got : List ℕ)
      → got ≡ take remaining (drop (offset - start) bytes)
      → length bytes ≡ b.used
      → start ≤ offset
      → start + b.used < 2 ^ 32
      → offset < 2 ^ 32
      → KnownRest
      → rest_after remaining ≡ []
      → got ++ rest_after (length got) ≡ wanted
  read_cons got e l s w o known stop =
      let k = offset - start in
      let size : length got ≡ min remaining (b.used - k) =
        omega (arith, ap length e, length-take remaining (drop k bytes), length-drop k bytes, l) in
      elim (dec_lt k b.used) [
        | no past ↦
            ap₂ ◌++◌
              (e
                ∙ ap (take remaining) (drop-all k bytes (omega (arith, l)))
                ∙ take_of_nil remaining)
              (ap rest_after {x = length got} {y = 0} (omega (arith, size)))
            ∙ known 0 (omega arith) (omega arith) (omega arith)
            ∙ ap₂ (λ m j. take m (drop j (contents bs))) {x = remaining - 0} {y = remaining}
                {u = offset + 0 - (start + b.used)} {v = k - length bytes} (omega arith)
                (omega (arith, l))
            ∙ ap (take remaining) (sym (drop-append_ge k bytes (contents bs) (omega (arith, l))))
        | yes inside ↦ elim (dec_lt remaining (b.used - k)) [
          | yes short ↦
              ap₂ ◌++◌ e (
                ap rest_after {x = length got} {y = remaining} (omega (arith, size))
                ∙ stop
                ∙ sym (
                    take_zero (remaining - length (drop k bytes)) (contents bs)
                      (omega (arith, length-drop k bytes, l))))
              ∙ sym (window-append bytes (contents bs) k remaining (omega (arith, l)))
          | no whole ↦
              ap₂ ◌++◌ e (
                known (length got) (omega (arith, size)) (omega (arith, size)) (omega (arith, size))
                ∙ ap₂ (λ m j. take m (drop j (contents bs))) {x = remaining - length got}
                    {y = remaining - length (drop k bytes)}
                    {u = offset + length got - (start + b.used)} {v = 0}
                    (omega (arith, size, length-drop k bytes, l)) (omega (arith, size)))
              ∙ sym (window-append bytes (contents bs) k remaining (omega (arith, l)))
        ]
      ]

read_loop_lem :
    (bs : List Block) (start offset remaining : ℕ)
    → AreBlocks bs
    → start ≤ offset
    → start + length (contents bs) < 2 ^ 32
    → offset < 2 ^ 32
    → remaining < 2 ^ 32
    → read_loop bs start offset remaining ≡ take remaining (drop (offset - start) (contents bs))
unfolding read_loop
read_loop_lem [] start offset remaining p s w o r =
    sym (ap (take remaining) (drop_of_nil (offset - start)) ∙ take_of_nil remaining)
read_loop_lem (b ∷ bs) start offset remaining p s w o r =
    let whole = length-contents-cons b bs p.0 p.1 in
    let size : length (take b.used b.data_bytes) ≡ b.used =
      omega (arith, length-take b.used b.data_bytes, p.0) in
    let known : KnownRest b bs start offset remaining = λ n a c d.
      ap₂ (λ u v. read_loop bs u v (sub32 remaining n)) {x = add32 start b.used}
        {y = start + b.used} {u = add32 offset n} {v = offset + n} (omega (arith, whole))
        (omega arith)
      ∙ ap (read_loop bs (start + b.used) (offset + n)) {x = sub32 remaining n} {y = remaining - n}
          (omega arith)
      ∙ read_loop_lem bs (start + b.used) (offset + n) (remaining - n) p.2 a (omega (arith, whole))
          d (omega arith) in
    let none_left : rest_after b bs start offset remaining remaining ≡ [] =
      ap (read_loop bs (add32 start b.used) (add32 offset remaining))
        {x = sub32 remaining remaining} {y = 0} (omega arith)
      ∙ read_loop-zero bs (add32 start b.used) (add32 offset remaining) in
    elim (Bool-cases (remaining == 0)) [
      | inl stop ↦ rw stop (sym (take_zero remaining _ (ground arith)))
      | inr more ↦ rw more (
          read_cons b bs start offset remaining (block_read b start offset remaining)
            (block_read_lem b start offset remaining p.0 p.1 s (omega (arith, whole))) size s
            (omega (arith, whole)) o known none_left)
    ]

-- Holding the request to the end of the file does not change what is read.
clip_lem :
    (i : Inode) (position size : ℕ) (c : List ℕ)
    → i.size ≡ length c
    → i.size < 2 ^ 32
    → take (clip i position size) (drop position c) ≡ take size (drop position c)
clip_lem i position size c l s = elim (Bool-cases (ltb i.size (add32 position size))) [
  | inr inside ↦ rw inside refl
  | inl over ↦ rw over (
      take-all (sub32 i.size position) (drop position c) (ground (arith, length-drop position c))
      ∙ sym (take-all size (drop position c) (ground (arith, length-drop position c))))
]

take-zero_either :
    (m n : ℕ) (xs : List ℕ) → (m == 0 || n == 0) ≡ true → take n xs ≡ take m xs → take m xs ≡ []
take-zero_either m n xs z e = elim (Bool-cases (m == 0)) [
  | inl mz ↦ take_zero m xs (ground arith)
  | inr mnz ↦ sym e ∙ take_zero n xs (ground arith)
]

-- `shadowfs_read` fills the buffer with exactly the bytes of the file from the descriptor's position
-- on, as many as asked for or as there are; past the end there are none. The position moves on by the
-- count, and neither the file's bytes nor its size change.
pub shadowfs_read_lem :
    (now size : ℕ) (e : Env)
    → IsFile e.inode
    → e.position < 2 ^ 32
    → size < 2 ^ 32
    → ((shadowfs_read now e size).1 ≡ take size (drop e.position (contents e.inode.blocks)))
      × ((shadowfs_read now e size).0.position
          ≡ add32 e.position (length (shadowfs_read now e size).1))
      × ((shadowfs_read now e size).0.inode.blocks ≡ e.inode.blocks)
      × ((shadowfs_read now e size).0.inode.size ≡ e.inode.size)
unfolding shadowfs_read
shadowfs_read_lem now size e f o s =
    let c = contents e.inode.blocks in
    let r : ℕ = clip e.inode e.position size in
    let out : read_loop e.inode.blocks 0 e.position r ≡ take r (drop e.position c) =
      read_loop_lem e.inode.blocks 0 e.position r f.blocks_ok (omega arith)
        (omega (arith, f.sized, f.small)) o (ground arith)
      ∙ ap (λ j. take r (drop j c)) {x = e.position - 0} {y = e.position} (omega arith) in
    let cut = clip_lem e.inode e.position size c f.sized f.small in
    elim (Bool-cases (size == 0 || r == 0)) [
      | inl z ↦
          rw z (sym (take-zero_either size r (drop e.position c) z cut), omega arith, refl, refl)
      | inr nz ↦ rw nz (out ∙ cut, refl, refl, refl)
    ]

-- What a write has put into a file is what a read at the file's old end gives back: `n` bytes of it.
pub shadowfs_read-write :
    (memory : ℕ → List ℕ) (now later : ℕ) (e : Env) (buf : List ℕ) (e' : Env) (n : ℕ)
    → ((p : ℕ) → length (memory p) ≡ block_size)
    → e.mount.quota + block_header < 2 ^ 32
    → IsFile e.inode
    → e.inode.size + length buf < 2 ^ 32
    → e.position + length buf < 2 ^ 32
    → shadowfs_write memory now e buf ≡ ok (e', n)
    → (shadowfs_read later (record e' { position = e.inode.size }) n).1 ≡ take n buf
shadowfs_read-write memory now later e buf e' n pages q f s m done =
    elim (shadowfs_write_lem memory now e buf pages q f s m) [
      | inl stop ↦ absurd (ground arith)
      | inr (e2, n2, did, w) ↦
          let same : Wrote e buf e' n = subst₂ (Wrote e buf) (ground arith) (ground arith) w in
          (shadowfs_read_lem later n (record e' { position = e.inode.size }) same.file
            (omega (arith, f.small)) (omega (arith, same.within))).0
          ∙ ap (λ z. take n (drop e.inode.size z)) same.appended
          ∙ ap (take n) (
              drop-append_ge e.inode.size (contents e.inode.blocks) (take n buf)
                (omega (arith, f.sized))
              ∙ ap (λ j. drop j (take n buf)) {x = e.inode.size - length (contents e.inode.blocks)}
                  {y = 0} (omega (arith, f.sized)))
          ∙ take-take_le n n buf (omega arith)
    ]
