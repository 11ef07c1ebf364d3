-- ===== src/Syscalls/Sleep.antt =====
-- `sys_sleep` of kernel/processes/syscall.c, and the sweeps of `scheduler_wake_sleepers` of
-- kernel/processes/scheduler.c that end a sleep.
use acorn_os.Scheduler.{sleeping, wake_sleepers, Process, ready, is_sleeping, wake}
use acorn_os.Syscalls.{Kernel, sys_sleep, sleep_ticks}
use acorn_os.Syscalls.NoLostWake.Table.{IsListed}
use acorn_os.Common.{
  ℕ, zero, suc, ◌+◌, ◌*◌, ◌^◌, ◌≤◌, ◌<◌, ◌≡◌, refl, sym, ap, ap₂, ◌∙◌, ◌≢◌, inl, inr, Bool, true,
  false, ◌&&◌, not, List, [], ◌∷◌, arith, leb, ◌==◌, if◌then◌else◌, ==_iff, ==_refl, Bool-cases,
  get_or, add32, update,
}

-- For a sleep under `2 ^ 32` ms the rounding is to the next ten.
sleep_ticks_lem : (ms n : ℕ) → ms < 2 ^ 32 → 0 < ms → leb (sleep_ticks ms) n ≡ leb ms (10 * n)
unfolding sleep_ticks
sleep_ticks_lem ms n h p = ground arith

sleep_ticks_bounds : (ms : ℕ) → ms < 2 ^ 32 → 0 < ms → (0 < sleep_ticks ms) × (sleep_ticks ms ≤ ms)
unfolding sleep_ticks
sleep_ticks_bounds ms h p = ground arith

-- What a sweep at the count `now` makes of a process of the table
abbrev swept : ℕ → Process → Process
swept now q =
    if is_sleeping q.state && leb q.wake_at_tick now then record q { state = ready } else q

swept-swept : (now : ℕ) (q : Process) → swept now (swept now q) ≡ swept now q
swept-swept now q = elim (Bool-cases (is_sleeping q.state && leb q.wake_at_tick now)) [
  | inl e ↦ rw e refl
  | inr e ↦ rw (e, e) refl
]

wake_other :
    (now : ℕ) (proc : ℕ → Process) (p q : ℕ) → (p == q) ≡ false → wake now proc p q ≡ proc q
unfolding wake
wake_other now proc p q e =
    elim (Bool-cases
      (not (p == 0) && is_sleeping (proc p).state && leb (proc p).wake_at_tick now)) [
        | inl t ↦ rw (t, e) refl
        | inr t ↦ rw t refl
      ]

wake_self : (now : ℕ) (proc : ℕ → Process) (p : ℕ) → p ≢ 0 → wake now proc p p ≡ swept now (proc p)
unfolding wake
wake_self now proc p nz =
    let live : (p == 0) ≡ false = ground arith in
    elim (Bool-cases (is_sleeping (proc p).state && leb (proc p).wake_at_tick now)) [
      | inl t ↦ rw (live, t, ==_refl p) refl
      | inr t ↦ rw (live, t) refl
    ]

wake_stable :
    (now : ℕ) (proc : ℕ → Process) (p q : ℕ)
    → q ≢ 0
    → swept now (proc q) ≡ proc q
    → wake now proc p q ≡ proc q
wake_stable now proc p q nz same = elim (Bool-cases (p == q)) [
  | inl e ↦
      let s = (==_iff p q).0 e in ap (λ p. wake now proc p q) s ∙ wake_self now proc q nz ∙ same
  | inr e ↦ wake_other now proc p q e
]

wake_sleepers_stable :
    (now : ℕ) (ps : List ℕ) (proc : ℕ → Process) (q : ℕ)
    → q ≢ 0
    → swept now (proc q) ≡ proc q
    → wake_sleepers now ps proc q ≡ proc q
unfolding wake_sleepers
wake_sleepers_stable now [] proc q nz same = refl
wake_sleepers_stable now (p ∷ ps) proc q nz same =
    let kept = wake_stable now proc p q nz same in
    wake_sleepers_stable now ps (wake now proc p) q nz (ap (swept now) kept ∙ same ∙ sym kept)
    ∙ kept

-- A sweep reaches each process of the table.
wake_sleepers_at :
    (now : ℕ) (table : List ℕ) (proc : ℕ → Process) (i q : ℕ)
    → q ≢ 0
    → get_or table i 0 ≡ q
    → wake_sleepers now table proc q ≡ swept now (proc q)
unfolding wake_sleepers
wake_sleepers_at now [] proc i q nz at = absurd (nz (sym at))
wake_sleepers_at now (p ∷ ps) proc zero q nz at =
    let here : wake now proc p q ≡ swept now (proc q) =
      ap (λ p. wake now proc p q) at ∙ wake_self now proc q nz in
    wake_sleepers_stable now ps (wake now proc p) q nz
      (ap (swept now) here ∙ swept-swept now (proc q) ∙ sym here)
    ∙ here
wake_sleepers_at now (p ∷ ps) proc (suc i) q nz at = elim (Bool-cases (p == q)) [
  | inl e ↦
      let here : wake now proc p q ≡ swept now (proc q) =
        ap (λ p. wake now proc p q) ((==_iff p q).0 e) ∙ wake_self now proc q nz in
      wake_sleepers_stable now ps (wake now proc p) q nz
        (ap (swept now) here ∙ swept-swept now (proc q) ∙ sym here)
      ∙ here
  | inr e ↦
      wake_sleepers_at now ps (wake now proc p) i q nz at
      ∙ ap (swept now) (wake_other now proc p q e)
]

-- The sweeps of the `n` ticks of the timer that follow the count `now`
unfoldable pub sweeps : ℕ → ℕ → List ℕ → (ℕ → Process) → ℕ → Process
sweeps zero now table proc = proc
sweeps (suc n) now table proc = wake_sleepers (add32 now (suc n)) table (sweeps n now table proc)

swept_later :
    (now n d : ℕ) (q : Process)
    → is_sleeping q.state ≡ true
    → q.wake_at_tick ≡ now + d
    → swept (now + suc n) (if leb d n then record q { state = ready } else q)
      ≡ (if leb d (suc n) then record q { state = ready } else q)
swept_later now n d q asleep at = elim (Bool-cases (leb d n)) [
  | inl e ↦ let later : leb d (suc n) ≡ true = ground arith in rw (e, later) refl
  | inr e ↦
      let due : leb q.wake_at_tick (now + suc n) ≡ leb d (suc n) = ground arith in
      rw (e, asleep, due) refl
]

sweeps_at :
    (n now d i p : ℕ) (table : List ℕ) (proc : ℕ → Process)
    → p ≢ 0
    → get_or table i 0 ≡ p
    → is_sleeping (proc p).state ≡ true
    → (proc p).wake_at_tick ≡ now + d
    → 0 < d
    → now + n < 2 ^ 32
    → sweeps n now table proc p ≡ (if leb d n then record (proc p) { state = ready } else proc p)
unfolding sweeps
sweeps_at zero now d i p table proc nz at asleep wakes pd l =
    let early : leb d 0 ≡ false = ground arith in rw early refl
sweeps_at (suc n) now d i p table proc nz at asleep wakes pd l =
    wake_sleepers_at (add32 now (suc n)) table (sweeps n now table proc) i p nz at
    ∙ ap₂ swept {x = add32 now (suc n)} {y = now + suc n} (omega arith)
        (sweeps_at n now d i p table proc nz at asleep wakes pd (omega arith))
    ∙ swept_later now n d (proc p) asleep wakes

state_if :
    (b : Bool) (q : Process)
    → (if b then record q { state = ready } else q).state ≡ (if b then ready else q.state)
state_if true q = refl
state_if false q = refl

-- A process of the table that calls `sys_sleep` for `ms` milliseconds, with 0 < `ms` < `2 ^ 32`, at the
-- timer's count `now`, is, after the sweeps of the next `n` ticks, SLEEPING if `n` ticks of 10 ms are
-- less than `ms`, and READY if not; neither `now + ms` nor `now + n` wraps around.
pub sys_sleep_wakes :
    (k : Kernel) (now ms n : ℕ)
    → IsListed k.sched.table k.sched.current
    → 0 < ms
    → ms < 2 ^ 32
    → now + ms < 2 ^ 32
    → now + n < 2 ^ 32
    → (sweeps n now k.sched.table (sys_sleep now k ms).sched.proc k.sched.current).state
      ≡ (if leb ms (10 * n) then ready else sleeping)
unfolding sys_sleep
sys_sleep_wakes k now ms n (i, l, at, nz) p h room room' =
    let cur = k.sched.current in
    let (some_ticks, few) = sleep_ticks_bounds ms h p in
    let asleep : Process = record (k.sched.proc cur) {
      wake_at_tick = add32 now (sleep_ticks ms);
      state = sleeping;
    } in
    let proc = update k.sched.proc cur asleep in
    let live : (cur == 0) ≡ false = ground arith in
    let self : proc cur ≡ asleep = rw (==_refl cur) refl in
    let after =
      sweeps_at n now (sleep_ticks ms) i cur k.sched.table proc nz at
        (ap (λ q. is_sleeping q.state) self) (ap (λ q. q.wake_at_tick) self ∙ omega arith)
        some_ticks room' in
    ap
      (λ b.
        (sweeps n now k.sched.table
          (if b then k else record k { sched = record k.sched { proc = proc } }).sched.proc
          cur).state)
      live
    ∙ ap (λ q. q.state) after
    ∙ ap (λ q. (if leb (sleep_ticks ms) n then record q { state = ready } else q).state) self
    ∙ state_if (leb (sleep_ticks ms) n) asleep
    ∙ ap (λ b. if b then ready else sleeping) (sleep_ticks_lem ms n h p)
