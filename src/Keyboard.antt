-- ===== src/Keyboard.antt =====
-- drivers/input/keyboard.c: the key that is pending and the process that waits for one. The scancode
-- that the port gives is an argument; the interrupt controller and the yield are left out.
mod Tests
pub mod Race
use acorn_os.Scheduler.{Process, Sched}
use acorn_os.Processes.{Kernel, process_block, process_wake}
use acorn_os.Common.{
  ℕ, zero, suc, ◌+◌, ◌-◌, ◌*◌, ◌/◌, ◌%◌, ◌^◌, ◌≤◌, ◌<◌, min, ◌≡◌, refl, sym, ap, ap₂, ◌∙◌, subst,
  ◌≢◌, ◌↔◌, ◌⊎◌, inl, inr, Bool, true, false, ◌&&◌, ◌||◌, not, Option, none, some, List, [], ◌∷◌,
  ◌++◌, map, append-nil, append_assoc, arith, ltb, leb, ◌==◌, if◌then◌else◌, ltb→lt, lt→ltb, leb→le,
  ==_iff, ==_refl, Bool-cases, Option-cases, length, get_elem?, get_or, set, take, drop, replicate,
  length-append, length-set, length-take, length-drop, length-replicate, take-append-drop,
  length-map, add32, sub32, add64, sub64, update,
}

-- `keyboard_waiting` and `pending_key`, with the processes
pub record Keyboard : Type 0 where
  pub waiting : ℕ
  pub pending : ℕ
  pub kernel : Kernel

abbrev pub scancode_table : List ℕ
scancode_table =
    0 ∷ 0 ∷ 49 ∷ 50 ∷ 51 ∷ 52 ∷ 53 ∷ 54 ∷ 55 ∷ 56 ∷ 57 ∷ 48 ∷ 45 ∷ 61 ∷ 8 ∷ 9 ∷ 113 ∷ 119 ∷ 101
    ∷ 114 ∷ 116 ∷ 121 ∷ 117 ∷ 105 ∷ 111 ∷ 112 ∷ 91 ∷ 93 ∷ 10 ∷ 0 ∷ 97 ∷ 115 ∷ 100 ∷ 102 ∷ 103 ∷ 104
    ∷ 106 ∷ 107 ∷ 108 ∷ 59 ∷ 39 ∷ 96 ∷ 0 ∷ 92 ∷ 122 ∷ 120 ∷ 99 ∷ 118 ∷ 98 ∷ 110 ∷ 109 ∷ 44 ∷ 46 ∷ 47
    ∷ 0 ∷ 42 ∷ 0 ∷ 32 ∷ 0 ∷ []

-- A key with a character is stored over the one that is pending, and wakes the process that waits.
unfoldable pub store_key : Keyboard → ℕ → Keyboard
store_key kb c =
    if kb.waiting == 0
    then record kb { pending = c }
    else record kb { pending = c; kernel = process_wake kb.kernel kb.waiting; waiting = 0 }

unfoldable pub keyboard_handler : Keyboard → ℕ → Keyboard
keyboard_handler kb scancode =
    let c = get_or scancode_table scancode 0 in
    if leb 128 scancode
    then kb
    else if ltb scancode (length scancode_table) && not (c == 0)
    then store_key kb c
    else kb

-- `keyboard_wait` up to its yield
unfoldable pub keyboard_wait : Keyboard → ℕ → Keyboard
keyboard_wait kb p = record kb { waiting = p; kernel = process_block kb.kernel p }

-- `keyboard_getchar` is a loop of a test of `pending_key`, and of `keyboard_wait` of the current
-- process while the test holds; an interrupt may come between the two. Then the key is taken.
abbrev pub nothing_pending : Keyboard → Bool
nothing_pending kb = kb.pending == 0

abbrev pub getchar_wait : Keyboard → Keyboard
getchar_wait kb = keyboard_wait kb kb.kernel.sched.current

unfoldable pub take_key : Keyboard → Keyboard × ℕ
take_key kb = (record kb { pending = 0 }, kb.pending)
