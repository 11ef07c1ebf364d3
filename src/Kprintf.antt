-- ===== src/Kprintf.antt =====
-- kernel/core/kprintf.c: numbers as text and the formatter. A variable argument is its 64-bit slot; the
-- strings that arguments point at are a function of the address, 0 is null. What is undefined in C is a
-- `Result` of its own: going on past the terminator of the format or past the last argument, and the
-- overflow of `pos`.
mod Tests
pub mod Pieces
mod Cut
pub mod Digits
pub mod Format
pub mod Print
use acorn_os.Common.{
  ℕ, zero, suc, ◌+◌, ◌-◌, ◌*◌, ◌/◌, ◌%◌, ◌^◌, ◌≤◌, ◌<◌, min, ◌≡◌, refl, sym, ap, ap₂, ◌∙◌, subst,
  ◌≢◌, ◌↔◌, ◌⊎◌, inl, inr, Bool, true, false, ◌&&◌, ◌||◌, not, Option, none, some, List, [], ◌∷◌,
  ◌++◌, map, append-nil, append_assoc, arith, ltb, leb, ◌==◌, if◌then◌else◌, ltb→lt, lt→ltb, leb→le,
  ==_iff, ==_refl, Bool-cases, Option-cases, length, get_elem?, get_or, set, take, drop, replicate,
  length-append, length-set, length-take, length-drop, length-replicate, take-append-drop,
  length-map, add32, sub32, add64, sub64, update,
}

-- The buffer `tmp` of `uint_to_dec` and `uint64_to_dec`: the digits of `n`, the last one first.
unfoldable pub last_digits : ℕ → ℕ → List ℕ
last_digits zero n = []
last_digits (suc fuel) n =
    let rest = last_digits fuel (n / 10) in if n == 0 then [] else (48 + n % 10) ∷ rest

-- `buf[j] = tmp[len - 1 - j]`
unfoldable pub reversed : List ℕ → ℕ → List ℕ
reversed tmp zero = []
reversed tmp (suc len) = get_or tmp len 0 ∷ reversed tmp len

abbrev pub dec_of : List ℕ → List ℕ
dec_of tmp = reversed tmp (length tmp)

-- The text that is written into `buf`; its length is what the function returns.
unfoldable pub uint_to_dec : ℕ → List ℕ
uint_to_dec n = if n == 0 then 48 ∷ [] else dec_of (last_digits 32 n)

unfoldable pub uint64_to_dec : ℕ → List ℕ
uint64_to_dec n = if n == 0 then 48 ∷ [] else dec_of (last_digits 64 n)

-- `n` is the two's complement of the argument.
unfoldable pub int_to_dec : ℕ → List ℕ
int_to_dec n = if leb (2 ^ 31) n then 45 ∷ uint_to_dec (sub32 0 n) else uint_to_dec n

abbrev pub hex_digits : List ℕ
hex_digits = 48 ∷ 49 ∷ 50 ∷ 51 ∷ 52 ∷ 53 ∷ 54 ∷ 55 ∷ 56 ∷ 57 ∷ 65 ∷ 66 ∷ 67 ∷ 68 ∷ 69 ∷ 70 ∷ []

-- The loop from `buf[count - 1]` down; `written` is what stands behind.
unfoldable pub hex_loop : ℕ → ℕ → List ℕ → List ℕ
hex_loop zero n written = written
hex_loop (suc i) n written = hex_loop i (n / 16) (get_or hex_digits (n % 16) 0 ∷ written)

abbrev pub uint_to_hex : ℕ → List ℕ
uint_to_hex n = hex_loop 8 n []

abbrev pub uint64_to_hex : ℕ → List ℕ
uint64_to_hex n = hex_loop 16 n []

-- `buf` and `pos` of `kvsnprintf`
pub record Out : Type 0 where
  pub buf : ℕ → ℕ
  pub pos : ℕ

pub data Result {ℓ} (A : Type ℓ) : Type ℓ where
  done : A → Result A
  past_format past_args overflow : Result A

infixl 5 ◌>>=◌
abbrev pub ◌>>=◌ {ℓ κ} : {A : Type ℓ} {B : Type κ} → Result A → (A → Result B) → Result B
done a >>= f = f a
past_format >>= f = past_format
past_args >>= f = past_args
overflow >>= f = overflow

-- What `pos`, an `int`, stays below
unfoldable pub int_limit : ℕ
int_limit = 2 ^ 31

-- `pos < size - 1`. A negative `size` acts as 0.
abbrev pub has_room : ℕ → Out → Bool
has_room size o = ltb (suc o.pos) size

abbrev pub written : ℕ → Out → ℕ → Out
written size o c = record {
  buf = if has_room size o then update o.buf o.pos c else o.buf;
  pos = suc o.pos;
}

-- `PUTC` of a character
unfoldable pub putc : ℕ → Out → ℕ → Result Out
putc size o c = if ltb (suc o.pos) int_limit then done (written size o c) else overflow

-- The loops over `tmp`
unfoldable pub puts : ℕ → Out → List ℕ → Result Out
puts size o [] = done o
puts size o (c ∷ cs) = putc size o c >>= λ o'. puts size o' cs

-- The rounds of a loop of `PUTC(*p++)` at one character `c`, which is not the terminator: the macro
-- evaluates `*p++` only where the buffer has room, so without room `pos` moves and `p` does not, and
-- the next round is at the same character. Each round adds to `pos`, so it overflows within the
-- `int_limit` rounds that the loops give.
unfoldable pub put_next : ℕ → ℕ → Out → ℕ → Result Out
put_next zero size o c = overflow
put_next (suc rounds) size o c = elim (putc size o c) [
  | done o' ↦ elim (has_room size o) [ true ↦ done o' | false ↦ put_next rounds size o' c ]
  | past_format ↦ past_format
  | past_args ↦ past_args
  | overflow ↦ overflow
]

-- `PUTS`
unfoldable pub put_string : ℕ → Out → List ℕ → Result Out
put_string size o [] = done o
put_string size o (c ∷ cs) = put_next int_limit size o c >>= λ o'. put_string size o' cs

-- Where the loop is: at its head, behind the `%`, or behind the `l`
pub data Mode : Type 0 where
  plain percent long : Mode

-- "(null)"
abbrev pub null_text : List ℕ
null_text = 40 ∷ 110 ∷ 117 ∷ 108 ∷ 108 ∷ 41 ∷ []

-- `%ld`
abbrev pub int64_to_dec : ℕ → List ℕ
int64_to_dec n = if leb (2 ^ 63) n then 45 ∷ uint64_to_dec (sub64 0 n) else uint64_to_dec n

-- The terminator that `kvsnprintf` writes at last
unfoldable pub terminate : ℕ → Out → ℕ → ℕ
terminate size o =
    if ltb o.pos size
    then update o.buf o.pos 0
    else if ltb 0 size
    then update o.buf (size - 1) 0
    else o.buf

module _ (strings : ℕ → List ℕ) where
  -- The text of a directive that takes an argument `a`; `none` is the default of the switch.
  unfoldable pub argument_text : Bool → ℕ → Option (ℕ → List ℕ)
  argument_text wide spec =
      if spec == 100
      then some (λ a. if wide then int64_to_dec a else int_to_dec (a % 2 ^ 32))
      else if spec == 117
      then some (λ a. if wide then uint64_to_dec a else uint_to_dec (a % 2 ^ 32))
      else if spec == 120
      then some (λ a. if wide then uint64_to_hex a else uint_to_hex (a % 2 ^ 32))
      else if spec == 115
      then some (λ a. if a == 0 then null_text else strings a)
      else if spec == 99
      then some (λ a. (a % 2 ^ 8) ∷ [])
      else none

  -- A string is printed by `PUTS`, and anything else from `tmp` or as one character.
  abbrev pub put_text : ℕ → ℕ → Out → List ℕ → Result Out
  put_text size spec o text = if spec == 115 then put_string size o text else puts size o text

  -- The switch on the specifier, with the arguments that are left
  unfoldable pub directive : ℕ → Bool → ℕ → Out → List ℕ → Result (Out × List ℕ)
  directive size wide spec o args = elim (argument_text wide spec) [
    | none ↦ puts size o (if spec == 37 then 37 ∷ [] else 37 ∷ spec ∷ []) >>= λ o'. done (o', args)
    | some text ↦ elim args [
      | [] ↦ past_args
      | a ∷ rest ↦ put_text size spec o (text a) >>= λ o'. done (o', rest)
    ]
  ]

  -- What the loop does with the next character of the format
  unfoldable pub consume : ℕ → Mode → ℕ → Out → List ℕ → Result (Mode × Out × List ℕ)
  consume size plain c o args =
      if c == 37
      then done (percent, o, args)
      else put_next int_limit size o c >>= λ o'. done (plain, o', args)
  consume size percent c o args =
      if c == 108
      then done (long, o, args)
      else directive size false c o args >>= λ r. done (plain, r.0, r.1)
  consume size long c o args = directive size true c o args >>= λ r. done (plain, r.0, r.1)

  -- The loop over the format. Behind a `%` the terminator is taken for a specifier and passed.
  unfoldable pub format : ℕ → List ℕ → Mode → Out → List ℕ → Result Out
  format size [] plain o args = done o
  format size [] percent o args = past_format
  format size [] long o args = past_format
  format size (c ∷ fmt) mode o args =
      consume size mode c o args >>= λ r. format size fmt r.0 r.1 r.2

  -- The buffer afterwards and the count that is returned; `ksnprintf` is this.
  unfoldable pub kvsnprintf : (ℕ → ℕ) → ℕ → List ℕ → List ℕ → Result ((ℕ → ℕ) × ℕ)
  kvsnprintf buf size fmt args = format size fmt plain (record { buf = buf; pos = 0 }) args >>= λ o.
      done (terminate size o, o.pos)

-- `while(*p)` over a buffer, of at most `n` characters
unfoldable pub until_zero : ℕ → (ℕ → ℕ) → ℕ → List ℕ
until_zero zero buf p = []
until_zero (suc n) buf p =
    let rest = until_zero n buf (suc p) in if buf p == 0 then [] else buf p ∷ rest

unfoldable pub carriage : List ℕ → List ℕ
carriage [] = []
carriage (c ∷ cs) = if c == 10 then 13 ∷ c ∷ carriage cs else c ∷ carriage cs

module _ (strings : ℕ → List ℕ) (buf : ℕ → ℕ) where
  -- The characters that `kprintf` puts on the screen; `buf` is what its buffer holds before.
  unfoldable pub kprintf : List ℕ → List ℕ → Result (List ℕ)
  kprintf fmt args = kvsnprintf strings buf 1024 fmt args >>= λ r. done (until_zero 1024 r.0 0)

  -- The characters that `kserial_printf` puts on the serial line
  unfoldable pub kserial_printf : List ℕ → List ℕ → Result (List ℕ)
  kserial_printf fmt args =
      kvsnprintf strings buf 1024 fmt args >>= λ r. done (carriage (until_zero 1024 r.0 0))
