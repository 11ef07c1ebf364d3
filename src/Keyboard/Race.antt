-- ===== src/Keyboard/Race.antt =====
-- A key that arrives while a process waits for one in drivers/input/keyboard.c.
use acorn_os.Scheduler.{ready, blocked}
use acorn_os.Processes.{Kernel, process_block, process_wake, is_blocked}
use acorn_os.Keyboard.{
  Keyboard, scancode_table, store_key, keyboard_handler, keyboard_wait, nothing_pending,
  getchar_wait,
}
use acorn_os.Common.{
  ℕ, ◌≡◌, refl, ap, ◌∙◌, ◌≢◌, Bool, true, false, ◌&&◌, not, arith, ltb, leb, ◌==◌, ==_iff, ==_refl,
  length, get_or,
}

-- The scancode of a key press that has a character
abbrev pub is_key : ℕ → Bool
is_key scancode =
    ltb scancode (length scancode_table) && not (get_or scancode_table scancode 0 == 0)

handler-store_key :
    (kb : Keyboard) (scancode : ℕ)
    → is_key scancode ≡ true
    → keyboard_handler kb scancode ≡ store_key kb (get_or scancode_table scancode 0)
unfolding keyboard_handler
handler-store_key kb scancode key =
    let small : leb 128 scancode ≡ false = ground arith in rw (small, key, keyboard_handler) refl

is_zero : (p : ℕ) → p ≢ 0 → (p == 0) ≡ false
is_zero p nz = ground arith

blocked_at : (k : Kernel) (p : ℕ) → p ≢ 0 → ((process_block k p).sched.proc p).state ≡ blocked
unfolding process_block
blocked_at k p nz = rw (is_zero p nz, ==_refl p, process_block) refl

woken_at :
    (k : Kernel) (p : ℕ)
    → p ≢ 0
    → (k.sched.proc p).state ≡ blocked
    → ((process_wake k p).sched.proc p).state ≡ ready
unfolding process_wake
woken_at k p nz at =
    let waits : is_blocked (k.sched.proc p).state ≡ true = ap is_blocked at in
    rw (is_zero p nz, waits, ==_refl p, process_wake) refl

-- The process that waits is woken, and registered no more.
store_key_registered :
    (kb : Keyboard) (c : ℕ)
    → kb.waiting ≢ 0
    → store_key kb c
      ≡ record kb { pending = c; kernel = process_wake kb.kernel kb.waiting; waiting = 0 }
unfolding store_key
store_key_registered kb c nz = rw (is_zero kb.waiting nz, store_key) refl

store_key_free :
    (kb : Keyboard) (c : ℕ) → kb.waiting ≡ 0 → store_key kb c ≡ record kb { pending = c }
unfolding store_key
store_key_free kb c free = rw ((==_iff kb.waiting 0).1 free, store_key) refl

-- Two orders of an interrupt with a key and the wait of `keyboard_getchar`, for the current process,
-- which found nothing pending, while no process is registered. If the wait comes first, the process is
-- READY again with the key pending. If the interrupt comes between the test and the wait, the process
-- is BLOCKED although the key is pending: the wake-up is lost.
pub keyboard_race :
    (kb : Keyboard) (scancode : ℕ)
    → is_key scancode ≡ true
    → kb.kernel.sched.current ≢ 0
    → kb.waiting ≡ 0
    → (((keyboard_handler (getchar_wait kb) scancode).kernel.sched.proc
          kb.kernel.sched.current).state
        ≡ ready)
      × (nothing_pending (keyboard_handler (getchar_wait kb) scancode) ≡ false)
      × (((getchar_wait (keyboard_handler kb scancode)).kernel.sched.proc
            kb.kernel.sched.current).state
          ≡ blocked)
      × (nothing_pending (getchar_wait (keyboard_handler kb scancode)) ≡ false)
unfolding keyboard_wait
keyboard_race kb scancode key nz free =
    let cur = kb.kernel.sched.current in
    let c = get_or scancode_table scancode 0 in
    let printed : (c == 0) ≡ false = ground arith in
    let first =
      handler-store_key (getchar_wait kb) scancode key
      ∙ store_key_registered (getchar_wait kb) c nz in
    let then_wait = handler-store_key kb scancode key ∙ store_key_free kb c free in
    (
      ap (λ x. (x.kernel.sched.proc cur).state) first
          ∙ woken_at (process_block kb.kernel cur) cur nz (blocked_at kb.kernel cur nz),
      ap nothing_pending first ∙ printed,
      ap (λ x. ((getchar_wait x).kernel.sched.proc cur).state) then_wait
          ∙ blocked_at kb.kernel cur nz,
      ap (λ x. nothing_pending (getchar_wait x)) then_wait ∙ printed,
    )
