-- ===== src/Kprintf/Cut.antt =====
-- The loops of `PUTC` of kernel/core/kprintf.c at a buffer that has room, and at one that has none.
use acorn_os.Kprintf.{
  has_room, Out, done, overflow, int_limit, written, putc, puts, put_next, put_string,
}
use acorn_os.Kprintf.Pieces.{Piece, is_pointed, piece_text, text_of, emit, emits}
use acorn_os.Common.{true_is_not_false}
use acorn_os.Common.{
  ℕ, zero, suc, ◌+◌, ◌≤◌, ◌<◌, ◌≡◌, refl, ap, ◌∙◌, ◌⊎◌, inl, inr, Bool, true, false, ◌&&◌, ◌||◌,
  not, List, [], ◌∷◌, ◌++◌, arith, ltb, Bool-cases, length, length-append,
}

-- Whether a text gets through a loop of `PUTC(*p++)`
abbrev pub fits : ℕ → ℕ → List ℕ → Bool
fits size pos [] = true
fits size pos (c ∷ cs) = ltb (pos + length (c ∷ cs)) size

-- What a text that gets through leaves
unfoldable pub printed : ℕ → Out → List ℕ → Out
printed size o [] = o
printed size o (c ∷ cs) = printed size (written size o c) cs

pub printed-append :
    (size : ℕ) (o : Out) (xs ys : List ℕ)
    → printed size o (xs ++ ys) ≡ printed size (printed size o xs) ys
unfolding printed
printed-append size o [] ys = refl
printed-append size o (x ∷ xs) ys = printed-append size (written size o x) xs ys

pub printed-pos : (size : ℕ) (o : Out) (xs : List ℕ) → (printed size o xs).pos ≡ o.pos + length xs
unfolding printed
printed-pos size o [] = omega arith
printed-pos size o (x ∷ xs) = omega (arith, printed-pos size (written size o x) xs)

putc-done :
    (size : ℕ) (o : Out) (c : ℕ) → suc o.pos < int_limit → putc size o c ≡ done (written size o c)
unfolding putc
putc-done size o c h = let e : ltb (suc o.pos) int_limit ≡ true = ground arith in rw e refl

putc-overflow : (size : ℕ) (o : Out) (c : ℕ) → int_limit ≤ suc o.pos → putc size o c ≡ overflow
unfolding putc
putc-overflow size o c h = let e : ltb (suc o.pos) int_limit ≡ false = ground arith in rw e refl

putc-cases :
    (size : ℕ) (o : Out) (c : ℕ)
    → (putc size o c ≡ done (written size o c)) ⊎ (putc size o c ≡ overflow)
unfolding putc
putc-cases size o c = elim (Bool-cases (ltb (suc o.pos) int_limit)) [
  | inl e ↦ inl (rw e refl)
  | inr e ↦ inr (rw e refl)
]

pub puts-done :
    (size : ℕ) (o : Out) (xs : List ℕ)
    → o.pos + length xs < int_limit
    → puts size o xs ≡ done (printed size o xs)
unfolding puts printed
puts-done size o [] h = refl
puts-done size o (x ∷ xs) h =
    rw (putc-done size o x (omega arith)) (puts-done size (written size o x) xs (omega arith))

pub puts-cases :
    (size : ℕ) (o : Out) (xs : List ℕ)
    → (puts size o xs ≡ done (printed size o xs)) ⊎ (puts size o xs ≡ overflow)
unfolding puts printed
puts-cases size o [] = inl refl
puts-cases size o (x ∷ xs) = elim (putc-cases size o x) [
  | inl e ↦ rw e (puts-cases size (written size o x) xs)
  | inr e ↦ inr (rw e refl)
]

-- With room, the first round takes the character.
put_next_room :
    (rounds size : ℕ) (o : Out) (c : ℕ)
    → 0 < rounds
    → suc o.pos < size
    → size ≤ int_limit
    → put_next rounds size o c ≡ done (written size o c)
unfolding put_next
put_next_room zero size o c l h s = absurd (omega arith)
put_next_room (suc rounds) size o c l h s =
    let room : ltb (suc o.pos) size ≡ true = ground arith in
    rw (put_next, putc-done size o c (omega arith))
      (ap
        (λ b. elim b [
          | true ↦ done (written size o c)
          | false ↦ put_next rounds size (written size o c) c
        ])
        room)

-- Without room, no round does.
put_next_full :
    (rounds size : ℕ) (o : Out) (c : ℕ) → size ≤ suc o.pos → put_next rounds size o c ≡ overflow
unfolding put_next
put_next_full zero size o c h = refl
put_next_full (suc rounds) size o c h =
    let full : ltb (suc o.pos) size ≡ false = ground arith in
    elim (putc-cases size o c) [
      | inl e ↦
          rw (put_next, e, full) (put_next_full rounds size (written size o c) c (omega arith))
      | inr e ↦ rw (put_next, e) refl
    ]

-- The rounds that the loops give are enough: any more change nothing.
put_next_enough :
    (rounds size : ℕ) (o : Out) (c : ℕ)
    → int_limit ≤ o.pos + rounds
    → put_next (suc rounds) size o c ≡ put_next rounds size o c
unfolding put_next
put_next_enough zero size o c h =
    let past : putc size o c ≡ overflow = putc-overflow size o c (omega arith) in
    rw (put_next, past) refl
put_next_enough (suc rounds) size o c h = elim (putc-cases size o c) [
  | inr e ↦ rw (put_next, e) refl
  | inl e ↦ elim (Bool-cases (has_room size o)) [
    | inl r ↦ rw (put_next, e, r) refl
    | inr r ↦ rw (put_next, e, r) (put_next_enough rounds size (written size o c) c (omega arith))
  ]
]

int_limit_positive : 0 < int_limit
unfolding int_limit
int_limit_positive = omega arith

fits_rest :
    (size pos c : ℕ) (cs : List ℕ) → fits size pos (c ∷ cs) ≡ true → fits size (suc pos) cs ≡ true
fits_rest size pos c [] h = refl
fits_rest size pos c (d ∷ cs) h = ground arith

stuck_rest :
    (size pos c : ℕ) (cs : List ℕ)
    → suc pos < size
    → fits size pos (c ∷ cs) ≡ false
    → fits size (suc pos) cs ≡ false
stuck_rest size pos c [] r h = ground arith
stuck_rest size pos c (d ∷ cs) r h = ground arith

put_string-done :
    (size : ℕ) (o : Out) (xs : List ℕ)
    → size ≤ int_limit
    → fits size o.pos xs ≡ true
    → put_string size o xs ≡ done (printed size o xs)
unfolding put_string printed
put_string-done size o [] s h = refl
put_string-done size o (x ∷ xs) s h =
    rw (put_next_room int_limit size o x int_limit_positive (ground arith) s)
      (put_string-done size (written size o x) xs s (fits_rest size o.pos x xs h))

put_string_stuck :
    (size : ℕ) (o : Out) (xs : List ℕ)
    → size ≤ int_limit
    → fits size o.pos xs ≡ false
    → put_string size o xs ≡ overflow
unfolding put_string
put_string_stuck size o [] s h = absurd (true_is_not_false h)
put_string_stuck size o (x ∷ xs) s h = elim (Bool-cases (ltb (suc o.pos) size)) [
  | inl e ↦
      rw (put_next_room int_limit size o x int_limit_positive (ground arith) s) (
        put_string_stuck size (written size o x) xs s (stuck_rest size o.pos x xs (ground arith) h))
  | inr e ↦ rw (put_next_full int_limit size o x (ground arith)) refl
]

module _ (strings : ℕ → List ℕ) where
  -- Whether all pieces get through, from the position `pos` on
  unfoldable pub passes : ℕ → ℕ → List Piece → Bool
  passes size pos [] = true
  passes size pos (p ∷ ps) =
      (not (is_pointed p) || fits size pos (piece_text strings p))
      && passes size (pos + length (piece_text strings p)) ps

  emit-done :
      (size : ℕ) (p : Piece) (o : Out)
      → size ≤ int_limit
      → (not (is_pointed p) || fits size o.pos (piece_text strings p)) ≡ true
      → o.pos + length (piece_text strings p) < int_limit
      → emit strings size p o ≡ done (printed size o (piece_text strings p))
  emit-done size p o s h l = elim (Bool-cases (is_pointed p)) [
    | inl e ↦ rw e (put_string-done size o (piece_text strings p) s (rw e at h))
    | inr e ↦ rw e (puts-done size o (piece_text strings p) l)
  ]

  emit_stuck :
      (size : ℕ) (p : Piece) (o : Out)
      → size ≤ int_limit
      → (not (is_pointed p) || fits size o.pos (piece_text strings p)) ≡ false
      → emit strings size p o ≡ overflow
  emit_stuck size p o s h = elim (Bool-cases (is_pointed p)) [
    | inl e ↦ rw e (put_string_stuck size o (piece_text strings p) s (rw e at h))
    | inr e ↦ absurd (true_is_not_false (rw e at h))
  ]

  emit-cases :
      (size : ℕ) (p : Piece) (o : Out)
      → size ≤ int_limit
      → (emit strings size p o ≡ done (printed size o (piece_text strings p)))
        ⊎ (emit strings size p o ≡ overflow)
  emit-cases size p o s = elim (Bool-cases (is_pointed p)) [
    | inl e ↦ rw e (elim (Bool-cases (fits size o.pos (piece_text strings p))) [
      | inl f ↦ inl (put_string-done size o (piece_text strings p) s f)
      | inr f ↦ inr (put_string_stuck size o (piece_text strings p) s f)
    ])
    | inr e ↦ rw e (puts-cases size o (piece_text strings p))
  ]

  pub emits-done :
      (size : ℕ) (ps : List Piece) (o : Out)
      → size ≤ int_limit
      → o.pos + length (text_of strings ps) < int_limit
      → passes size o.pos ps ≡ true
      → emits strings size ps o ≡ done (printed size o (text_of strings ps))
  unfolding emits passes text_of printed
  emits-done size [] o s l h = refl
  emits-done size (p ∷ ps) o s l h =
      let t = piece_text strings p in
      let long = length-append t (text_of strings ps) in
      let here = emit-done size p o s (ground arith) (omega (arith, long)) in
      let at = printed-pos size o t in
      rw (here, printed-append size o t (text_of strings ps))
        (emits-done size ps (printed size o t) s (omega (arith, long, at))
          (ap (λ n. passes size n ps) at ∙ ground arith))

  pub emits_stuck :
      (size : ℕ) (ps : List Piece) (o : Out)
      → size ≤ int_limit
      → passes size o.pos ps ≡ false
      → emits strings size ps o ≡ overflow
  unfolding emits passes text_of printed
  emits_stuck size [] o s h = absurd (true_is_not_false h)
  emits_stuck size (p ∷ ps) o s h =
      let t = piece_text strings p in
      elim (Bool-cases (not (is_pointed p) || fits size o.pos t)) [
        | inl e ↦ elim (emit-cases size p o s) [
          | inl d ↦ rw d (
              emits_stuck size ps (printed size o t) s
                (ap (λ n. passes size n ps) (printed-pos size o t) ∙ ground arith))
          | inr d ↦ rw d refl
        ]
        | inr e ↦ rw (emit_stuck size p o s e) refl
      ]
