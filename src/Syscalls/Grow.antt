-- ===== src/Syscalls/Grow.antt =====
-- `sys_heap_grow` of kernel/processes/syscall.c on the page tables: new pages, and only they.
pub mod Page
use acorn_os.Syscalls.Grow.Page.{IsGrown, grow_page-IsGrown}
use acorn_os.Pmm.{Pmm, pmm_alloc, page_size, bitmap_test}
use acorn_os.Pmm.Alloc.{pmm_alloc-marks, pmm_alloc-eq-reserve, reserve-HasBytes, total-reserve}
use acorn_os.Paging.{
  Memory, map_page_in, frame_of, pg_offset, pml4_index, pdpt_index, pd_index, pt_index,
}
use acorn_os.Paging.Tree.{IsTree, Spare, another, find}
use acorn_os.Paging.Walk.{translate}
use acorn_os.Paging.Map.{page_number}
use acorn_os.Paging.Translate.{map_at_lem, physical_of, is_not_zero}
use acorn_os.Syscalls.{page_up, Kernel, grow_pages, sys_heap_grow, grow_page}
use acorn_os.Common.{
  subst, ltb, ◌-◌, lt→ltb, add64, true_is_not_false, ℕ, zero, suc, ◌+◌, ◌*◌, ◌/◌, ◌%◌, ◌^◌, ◌≤◌,
  ◌<◌, ◌≡◌, refl, sym, ap, ◌∙◌, ◌≢◌, ◌⊎◌, inl, inr, true, false, Option, none, some, List, [], ◌∷◌,
  arith, leb, ◌==◌, if◌then◌else◌, ==_iff, ==_refl, Bool-cases, update,
}

-- The pages to spare for `n` pages of the loop: each needs one, and its tables three at most.
unfoldable pub four_each : ℕ → ℕ
four_each zero = 0
four_each (suc n) = suc (suc (suc (suc (four_each n))))

-- An address of user space in the range from `va` on
abbrev pub Covers : ℕ → ℕ → ℕ → Type 0
Covers va stop w = (va ≤ w) × (w < stop)

-- The address `w` has a page that was free before, and whose bytes are zero.
abbrev pub HasNewPage : ℕ → Memory → Memory → ℕ → Type 0
HasNewPage root m m' w =
    (page : ℕ) × (bitmap_test m.pmm page ≡ true)
    × (physical_of (translate m' root w) w ≡ page * page_size + pg_offset w)
    × ((i : ℕ) → m'.byte page i ≡ 0)

-- What the loop leaves for the pages from `va` to `stop`
pub record IsRange (root : ℕ) (m m' : Memory) (va stop : ℕ) : Type 0 where
  pub inside : (w : ℕ) → w < 2 ^ 47 → Covers va stop w → HasNewPage root m m' w
  pub outside :
      (w : ℕ)
      → w < 2 ^ 47
      → (w < va) ⊎ (stop ≤ w)
      → physical_of (translate m' root w) w ≡ physical_of (translate m root w) w
  pub keeps_bytes : (q : ℕ) → bitmap_test m.pmm q ≡ false → m'.byte q ≡ m.byte q

was_free_before :
    (m m' : Memory) (q : ℕ)
    → (bitmap_test m.pmm q ≡ false → bitmap_test m'.pmm q ≡ false)
    → bitmap_test m'.pmm q ≡ true
    → bitmap_test m.pmm q ≡ true
was_free_before m m' q stays free = elim (Bool-cases (bitmap_test m.pmm q)) [
  | inl e ↦ e
  | inr e ↦ absurd (true_is_not_false (sym free ∙ stays e))
]

same_number :
    (a b : ℕ) → a / 2 ^ 12 % 2 ^ 36 ≡ b / 2 ^ 12 % 2 ^ 36 → (page_number a == page_number b) ≡ true
same_number a b e = (==_iff (page_number a) (page_number b)).1 e

same_page_of :
    (w va : ℕ)
    → va % page_size ≡ 0
    → va ≤ w
    → w < va + page_size
    → w < 2 ^ 47
    → page_number w ≡ page_number va
same_page_of w va aligned from to small = omega arith

other_number : (a b : ℕ) → a ≢ b → (a == b) ≡ false
other_number a b ne = ground arith

IsRange-suc :
    (root : ℕ) (m m1 m2 : Memory) (va page stop : ℕ)
    → va % page_size ≡ 0
    → va < 2 ^ 47
    → va + page_size ≤ stop
    → IsGrown root m m1 va page
    → IsRange root m1 m2 (va + page_size) stop
    → IsRange root m m2 va stop
IsRange-suc root m m1 m2 va page stop aligned small long one rest = record {
  inside = λ w lw (from, to). elim (Bool-cases (leb (va + page_size) w)) [
    | inl later ↦
        let (q, free, at, zero_byte) = rest.inside w lw (ground arith, to) in
        (q, was_free_before m m1 q (one.stays_used q) free, at, zero_byte)
    | inr first ↦ (
      page,
      one.was_free,
      rest.outside w lw (inl (ground arith))
          ∙ one.mapped w (omega arith)
          ∙ rw (same_number w va (same_page_of w va aligned from (ground arith) lw)) refl,
      λ i.
          ap (λ b. b i) (rest.keeps_bytes page one.is_used)
          ∙ ap (λ b. b page i) one.new_byte
          ∙ rw (==_refl page) refl,
    )
  ];
  outside = λ w lw out.
      rest.outside w lw (elim out [ inl a ↦ inl (omega arith) | inr b ↦ inr b ])
      ∙ one.mapped w (omega arith)
      ∙ rw
          (other_number (page_number w) (page_number va) (elim out [
            | inl a ↦ (λ e. absurd (omega arith))
            | inr b ↦ (λ e. absurd (omega arith))
          ]))
          refl;
  keeps_bytes = λ q u.
      rest.keeps_bytes q (one.stays_used q u)
      ∙ ap (λ b. b q) one.new_byte
      ∙ rw
          (other_number page q
            (λ e. true_is_not_false (sym one.was_free ∙ ap (bitmap_test m.pmm) e ∙ u)))
          refl;
}

grow_pages_step :
    (n : ℕ) (m m1 : Memory) (dir va stop : ℕ)
    → ltb va stop ≡ true
    → grow_page m dir va ≡ some m1
    → grow_pages (suc n) m dir va stop ≡ grow_pages n m1 dir (add64 va page_size) stop
unfolding grow_pages
grow_pages_step n m m1 dir va stop l e = rw (l, e, grow_pages) refl

-- With the pages to spare, the loop over `n` pages of user space ends, each page of the range is a new
-- one, and the rest of user space is as before.
grow_pages_lem :
    (n : ℕ) (place : ℕ → Option (List ℕ)) (m : Memory) (dir va stop : ℕ)
    → IsTree place (frame_of dir) m
    → dir ≢ 0
    → va % page_size ≡ 0
    → stop ≡ va + n * page_size
    → stop ≤ 2 ^ 47
    → Spare (four_each n) m.pmm
    → (place' : ℕ → Option (List ℕ)) × (m' : Memory) × (grow_pages n m dir va stop ≡ some m')
      × IsTree place' (frame_of dir) m'
      × IsRange (frame_of dir) m m' va stop
unfolding grow_pages four_each
grow_pages_lem zero place m dir va stop tree nz aligned is small s = (
  place,
  m,
  refl,
  tree,
  record {
    inside = λ w lw (from, to). absurd (omega arith);
    outside = λ w lw out. refl;
    keeps_bytes = λ q u. refl;
  },
)
grow_pages_lem (suc n) place m dir va stop tree nz aligned is small s =
    let (place1, m1, page, eq, tree1, one, s1) =
      grow_page-IsGrown (four_each n) place m dir va tree nz (omega arith) s in
    let next : add64 va page_size ≡ va + page_size = omega arith in
    let (place2, m2, eq2, tree2, rest) =
      grow_pages_lem n place1 m1 dir (va + page_size) stop tree1 nz (omega arith) (omega arith)
        small s1 in
    (
      place2,
      m2,
      grow_pages_step n m m1 dir va stop (lt→ltb va stop (omega arith)) eq
          ∙ ap (λ v. grow_pages n m1 dir v stop) next
          ∙ eq2,
      tree2,
      IsRange-suc (frame_of dir) m m1 m2 va page stop aligned (omega arith) (omega arith) one rest,
    )

whole_pages : (x y : ℕ) → x ≤ y → y * 4096 ≡ x * 4096 + (y * 4096 - x * 4096) / 4096 * 4096
whole_pages x y h = omega arith

-- The end of the heap moves to `new`.
abbrev grown : Kernel → Memory → ℕ → Kernel
grown k m new = record k {
  memory = m;
  pcb = update k.pcb k.sched.current (record (k.pcb k.sched.current) { heap_end = new });
}

abbrev Runs : Kernel → ℕ → Memory → ℕ → Type 0
Runs k rdi m new =
    grow_pages ((page_up new - page_up (k.pcb k.sched.current).heap_end) / page_size) k.memory
        (k.pcb k.sched.current).page_dir (page_up (k.pcb k.sched.current).heap_end) (page_up new)
      ≡ some m
    → sys_heap_grow k rdi ≡ some (grown k m new, (k.pcb k.sched.current).heap_end)

sys_heap_grow_run :
    (k : Kernel) (rdi : ℕ) (m : Memory) (new : ℕ)
    → (k.sched.current == 0) ≡ false
    → (rdi == 0) ≡ false
    → leb (2 ^ 63) rdi ≡ false
    → add64 (k.pcb k.sched.current).heap_end rdi ≡ new
    → Runs k rdi m new
unfolding sys_heap_grow
sys_heap_grow_run k rdi m new a b c sum =
    subst (Runs k rdi m) sum (λ eq. rw (a, b, c, eq, sys_heap_grow) refl)

-- `sys_heap_grow` by a positive increment, in a process whose user half is a tree of page tables, the
-- heap staying under the end of user space, and with pages to spare: it returns the old end of the
-- heap and the end goes up by the increment. Every address of the heap's new pages has a physical page
-- that was free before and holds zeros, every other address of user space has the physical address
-- that it had, and a page that was in use keeps its bytes.
pub sys_heap_grow_lem :
    (k : Kernel) (place : ℕ → Option (List ℕ)) (rdi : ℕ)
    → k.sched.current ≢ 0
    → (k.pcb k.sched.current).page_dir ≢ 0
    → IsTree place (frame_of (k.pcb k.sched.current).page_dir) k.memory
    → 0 < rdi
    → (k.pcb k.sched.current).heap_end + rdi + page_size ≤ 2 ^ 47
    → Spare
        (four_each (
          (page_up ((k.pcb k.sched.current).heap_end + rdi)
            - page_up (k.pcb k.sched.current).heap_end)
          / page_size))
        k.memory.pmm
    → (k' : Kernel) × (sys_heap_grow k rdi ≡ some (k', (k.pcb k.sched.current).heap_end))
      × ((k'.pcb k.sched.current).heap_end ≡ (k.pcb k.sched.current).heap_end + rdi)
      × IsRange
          (frame_of (k.pcb k.sched.current).page_dir)
          k.memory
          k'.memory
          (page_up (k.pcb k.sched.current).heap_end)
          (page_up ((k.pcb k.sched.current).heap_end + rdi))
unfolding sys_heap_grow
sys_heap_grow_lem k place rdi ncur ndir tree positive room s =
    let cur = k.sched.current in
    let old = (k.pcb cur).heap_end in
    let sum : add64 old rdi ≡ old + rdi = omega arith in
    let n = (page_up (old + rdi) - page_up old) / page_size in
    let (place', m', eq, tree', range) =
      grow_pages_lem n place k.memory (k.pcb cur).page_dir (page_up old) (page_up (old + rdi)) tree
        ndir (omega arith)
        (whole_pages (add64 old 0xFFF / page_size) (add64 (old + rdi) 0xFFF / page_size)
          (omega arith))
        (omega arith) s in
    (
      record k {
        memory = m';
        pcb = update k.pcb cur (record (k.pcb cur) { heap_end = old + rdi });
      },
      sys_heap_grow_run k rdi m' (old + rdi) (other_number cur 0 ncur)
          (other_number rdi 0 (λ z. absurd (omega arith))) (ground arith) sum eq,
      rw (==_refl cur) refl,
      range,
    )
