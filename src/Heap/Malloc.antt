-- ===== src/Heap/Malloc.antt =====
-- `kmalloc` of kernel/memory/mem.c.
use acorn_os.Common.{
  ◌↔◌, ltb→lt, ℕ, ◌+◌, ◌-◌, ◌^◌, ◌<◌, ◌≤◌, ◌≡◌, ◌≢◌, ◌⊎◌, ap, refl, inl, inr, true, false, ◌&&◌,
  List, [], ◌∷◌, ◌++◌, arith, leb, ltb, none, some, Bool-cases, add32, add64, sub64,
}
use acorn_os.Heap.{
  Block, Heap, header_size, heap_start, heap_size, align4, take_block, head_size, first_fit,
  kmalloc,
}
use acorn_os.Heap.Tiling.{Tiles, Tiles-le, in_use, in_use-le, used_blocks, IsValid}

-- No free block of the list holds `n` bytes.
abbrev pub NoFit : List Block → ℕ → Type 0
NoFit [] n = Unit {0}
NoFit (b ∷ bs) n = ((b.free && leb n b.size) ≡ false) × NoFit bs n

-- The list before and after a block `b` was handed out for `n` bytes.
pub data Takes (n : ℕ) : List Block → Block → List Block → Type 0 where
  here :
      {bs : List Block} (b : Block)
      → b.free ≡ true
      → n ≤ b.size
      → Takes n (b ∷ bs) b (take_block b n bs)
  there :
      {bs cs : List Block} {b : Block} (c : Block)
      → (c.free && leb n c.size) ≡ false
      → Takes n bs b cs
      → Takes n (c ∷ bs) b (c ∷ cs)

first_fit-Takes :
    (bs : List Block) (n : ℕ)
    → (NoFit bs n × (first_fit bs n ≡ none))
      ⊎ ((b : Block) × (cs : List Block) × Takes n bs b cs
          × (first_fit bs n
              ≡ some (record {
                result = add64 b.addr header_size;
                taken_size = head_size (take_block b n []);
                rest = cs;
              })))
unfolding first_fit
first_fit-Takes [] n = inl (tt, refl)
first_fit-Takes (b ∷ bs) n = elim (Bool-cases (b.free && leb n b.size)) [
  | inl fits ↦ inr (b, take_block b n bs, here b (ground arith) (ground arith), ground arith)
  | inr no_fit ↦ elim (first_fit-Takes bs n) [
    | inl (all, e) ↦ inl ((no_fit, all), rw (no_fit, e))
    | inr (c, cs, t, e) ↦ inr (c, b ∷ cs, there b no_fit t, rw (no_fit, e))
  ]
]

-- The address behind a block, as its split leaves it.
pub split_end :
    (b : Block) (n start stop : ℕ)
    → stop + 4 < 2 ^ 64
    → n ≤ b.size
    → start + header_size + b.size ≤ stop
    → ltb (add64 (add64 n header_size) 4) b.size ≡ true
    → (add64 (add64 start header_size) n ≡ start + header_size + n)
      × (start + header_size + n + header_size + sub64 (sub64 b.size n) header_size
          ≡ start + header_size + b.size)
      × (sub64 (sub64 b.size n) header_size + n + header_size ≡ b.size)
split_end b n start stop s l e h = let k = ltb→lt _ _ h in omega (arith, k)

take_block-Tiles :
    (b : Block) (n start stop : ℕ) (bs : List Block)
    → stop + 4 < 2 ^ 64
    → n ≤ b.size
    → Tiles start stop (b ∷ bs)
    → Tiles start stop (take_block b n bs)
unfolding take_block
take_block-Tiles b n start stop bs s l t =
    elim (Bool-cases (ltb (add64 (add64 n header_size) 4) b.size)) [
      | inl split ↦
          let (e, f, _) = split_end b n start stop s l (Tiles-le _ stop bs t.1) split in
          rw split (t.0, (rw t.0 e, rw f t.1))
      | inr whole ↦ rw whole t
    ]

Takes-Tiles :
    {n : ℕ} {bs cs : List Block} {b : Block}
    → Takes n bs b cs
    → (start stop : ℕ) → stop + 4 < 2 ^ 64
    → Tiles start stop bs
    → Tiles start stop cs
Takes-Tiles (here {bs} b f l) start stop s t = take_block-Tiles b _ start stop bs s l t
Takes-Tiles (there c nf k) start stop s t =
    (t.0, Takes-Tiles k (start + header_size + c.size) stop s t.1)

take_block-in_use :
    (b : Block) (n start stop : ℕ) (bs : List Block)
    → stop + 4 < 2 ^ 64
    → b.free ≡ true
    → n ≤ b.size
    → Tiles start stop (b ∷ bs)
    → (in_use (take_block b n bs) ≡ in_use bs + head_size (take_block b n []))
      × (used_blocks (take_block b n bs) ≡ (b.addr, head_size (take_block b n [])) ∷ used_blocks bs)
      × (n ≤ head_size (take_block b n []))
      × (head_size (take_block b n []) ≤ b.size)
unfolding take_block
take_block-in_use b n start stop bs s f l t = ground arith

-- Where the block handed out stands, and that every other block in use stays as it is.
pub record Outcome (n start stop : ℕ) (bs : List Block) (b : Block) (cs : List Block) : Type 0 where
  pub was_free : b.free ≡ true
  pub enough : n ≤ head_size (take_block b n [])
  pub inside : (start ≤ b.addr) × (b.addr + header_size + b.size ≤ stop)
  pub within : head_size (take_block b n []) ≤ b.size
  pub counted : in_use cs ≡ in_use bs + head_size (take_block b n [])
  pub kept :
      (xs : List (ℕ × ℕ)) × (ys : List (ℕ × ℕ)) × (used_blocks bs ≡ xs ++ ys)
      × (used_blocks cs ≡ xs ++ (b.addr, head_size (take_block b n [])) ∷ ys)

pub Takes-Outcome :
    {n : ℕ} {bs cs : List Block} {b : Block}
    → Takes n bs b cs
    → (start stop : ℕ) → stop + 4 < 2 ^ 64
    → Tiles start stop bs
    → Outcome n start stop bs b cs
Takes-Outcome {n} (here {bs} b f l) start stop s t =
    let (e, u, m, k) = take_block-in_use b n start stop bs s f l t in
    record {
      was_free = f;
      enough = m;
      inside = (omega arith, omega (arith, Tiles-le _ stop bs t.1));
      within = k;
      counted = ground arith;
      kept = ([], used_blocks bs, ground arith, u);
    }
Takes-Outcome {n} {b = b} (there {bs} {cs} c nf t') start stop s t =
    let o = Takes-Outcome t' (start + header_size + c.size) stop s t.1 in
    let (xs, ys, e, u) = o.kept in
    record {
      was_free = o.was_free;
      enough = o.enough;
      inside = (omega (arith, o.inside), o.inside.1);
      within = o.within;
      counted = ground (arith, o.counted);
      kept = elim (Bool-cases c.free) [
        | inl f ↦ (xs, ys, rw f e, rw f u)
        | inr f ↦ ((c.addr, c.size) ∷ xs, ys, rw (f, e), rw (f, u))
      ];
    }

NoFit-not-Takes : {n : ℕ} {bs cs : List Block} {b : Block} → NoFit bs n → Takes n bs b cs → ⊥
NoFit-not-Takes all (here b f l) = ground arith
NoFit-not-Takes all (there c nf t) = NoFit-not-Takes all.1 t

-- What a successful `kmalloc` did.
pub kmalloc-Takes :
    (h h' : Heap) (size p : ℕ)
    → kmalloc h size ≡ some (p, h')
    → (b : Block) × (cs : List Block) × Takes (align4 size) h.blocks b cs
      × (p ≡ add64 b.addr header_size)
      × (h'.blocks ≡ cs)
      × (h'.heap_used ≡ add32 h.heap_used (head_size (take_block b (align4 size) [])))
      × (size ≢ 0)
unfolding kmalloc
kmalloc-Takes h h' size p e = elim (first_fit-Takes h.blocks (align4 size)) [
  | inl (all, f) ↦ absurd (ground arith)
  | inr (b, cs, t, f) ↦ (b, cs, t, ground arith, ground arith, ground arith, ground arith)
]

align4-ge : (n : ℕ) → n < 2 ^ 63 → n ≤ align4 n
unfolding align4
align4-ge n h = ground arith

-- `kmalloc` panics exactly on a request of 0 bytes and where no free block holds the rounded request.
pub kmalloc-none_iff :
    (h : Heap) (size : ℕ) → (kmalloc h size ≡ none) ↔ ((size ≡ 0) ⊎ NoFit h.blocks (align4 size))
unfolding kmalloc
kmalloc-none_iff h size = elim (first_fit-Takes h.blocks (align4 size)) [
  | inl (all, f) ↦ (λ _. inr all, λ _. ground arith)
  | inr (b, cs, t, f) ↦ (
    λ e. inl (ground arith),
    elim [ inl z ↦ ground arith | inr none_fits ↦ absurd (NoFit-not-Takes none_fits t) ],
  )
]

-- On a valid heap a pointer that `kmalloc` returns is the data of a block that was free, lies inside
-- the heap and holds the request; the other blocks in use stay where and as large as they were, no
-- two blocks overlap, and the usage counter agrees with the blocks in use.
pub kmalloc-IsValid :
    (h h' : Heap) (size p : ℕ)
    → IsValid h
    → size < 2 ^ 63
    → kmalloc h size ≡ some (p, h')
    → IsValid h'
      × (xs : List (ℕ × ℕ)) × (ys : List (ℕ × ℕ)) × (k : ℕ) × (used_blocks h.blocks ≡ xs ++ ys)
      × (used_blocks h'.blocks ≡ xs ++ (p - header_size, k) ∷ ys)
      × (size ≤ k)
      × (heap_start + header_size ≤ p)
      × (p + k ≤ heap_start + heap_size)
kmalloc-IsValid h h' size p v s e =
    let (b, cs, t, pe, be, ue, nz) = kmalloc-Takes h h' size p e in
    let o = Takes-Outcome t heap_start (heap_start + heap_size) (omega arith) v.tiles in
    let (xs, ys, l, r) = o.kept in
    let tiles = Takes-Tiles t heap_start (heap_start + heap_size) (omega arith) v.tiles in
    (
      record {
        tiles = rw be tiles;
        counted =
            rw (be, ue, v.counted)
              (omega (arith, o.counted, in_use-le heap_start (heap_start + heap_size) cs tiles));
      },
      xs,
      ys,
      head_size (take_block b (align4 size) []),
      l,
      rw (be, r)
          (ap (λ a. xs ++ (a, head_size (take_block b (align4 size) [])) ∷ ys)
            (omega (arith, pe, o.inside))),
      omega (arith, o.enough, align4-ge size s),
      omega (arith, pe, o.inside),
      omega (arith, pe, o.inside, o.within),
    )
