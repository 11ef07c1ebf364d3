-- ===== src/Syscalls/NoLostWake/Quiet.antt =====
-- Changes of the processes that block none and end none: what kernel/processes/scheduler.c does.

use acorn_os.Scheduler.{
  ready, running, Process, Sched, max_processes, set_state, set_next, set_ticks, splice,
  scheduler_remove, wake, wake_sleepers, is_sleeping,
}
use acorn_os.Processes.{is_blocked, is_dead}
use acorn_os.Common.Int.{ℤ}
use acorn_os.Common.{
  true_is_not_false, ℕ, zero, suc, ◌≡◌, refl, sym, ap, ◌∙◌, inl, inr, Bool, true, false, ◌&&◌, ◌||◌,
  not, List, [], ◌∷◌, arith, leb, ◌==◌, if◌then◌else◌, Bool-cases, update,
}

pub record IsQuiet (proc proc' : ℕ → Process) : Type 0 where
  pub same_pid : (p : ℕ) → (proc' p).pid ≡ (proc p).pid
  pub was_blocked : (p : ℕ) → is_blocked (proc' p).state ≡ true → is_blocked (proc p).state ≡ true
  pub was_dead : (p : ℕ) → is_dead (proc' p).state ≡ true → is_dead (proc p).state ≡ true

pub IsQuiet-refl : (proc : ℕ → Process) → IsQuiet proc proc
IsQuiet-refl proc = record { same_pid = λ p. refl; was_blocked = λ p h. h; was_dead = λ p h. h }

pub IsQuiet-trans : (a b c : ℕ → Process) → IsQuiet a b → IsQuiet b c → IsQuiet a c
IsQuiet-trans a b c x y = record {
  same_pid = λ p. y.same_pid p ∙ x.same_pid p;
  was_blocked = λ p h. x.was_blocked p (y.was_blocked p h);
  was_dead = λ p h. x.was_dead p (y.was_dead p h);
}

pub IsQuiet-update :
    (proc : ℕ → Process) (p : ℕ) (v : Process)
    → v.pid ≡ (proc p).pid
    → (is_blocked v.state ≡ true → is_blocked (proc p).state ≡ true)
    → (is_dead v.state ≡ true → is_dead (proc p).state ≡ true)
    → IsQuiet proc (update proc p v)
IsQuiet-update proc p v e b d = record {
  same_pid = λ q. elim (Bool-cases (p == q)) [
    | inl s ↦ rw s (e ∙ ap (λ x. (proc x).pid) {x = p} {y = q} (ground arith))
    | inr n ↦ rw n refl
  ];
  was_blocked = λ q. elim (Bool-cases (p == q)) [
    | inl s ↦ rw s (λ h. ap (λ x. is_blocked (proc x).state) {x = q} {y = p} (ground arith) ∙ b h)
    | inr n ↦ rw n (λ h. h)
  ];
  was_dead = λ q. elim (Bool-cases (p == q)) [
    | inl s ↦ rw s (λ h. ap (λ x. is_dead (proc x).state) {x = q} {y = p} (ground arith) ∙ d h)
    | inr n ↦ rw n (λ h. h)
  ];
}

pub IsQuiet-set_next : (proc : ℕ → Process) (p q : ℕ) → IsQuiet proc (set_next proc p q)
IsQuiet-set_next proc p q =
    IsQuiet-update proc p (record (proc p) { next = q }) refl (λ h. h) (λ h. h)

pub IsQuiet-set_ticks : (proc : ℕ → Process) (p : ℕ) (n : ℤ) → IsQuiet proc (set_ticks proc p n)
IsQuiet-set_ticks proc p n =
    IsQuiet-update proc p (record (proc p) { ticks_remaining = n }) refl (λ h. h) (λ h. h)

pub IsQuiet-set_ready : (proc : ℕ → Process) (p : ℕ) → IsQuiet proc (set_state proc p ready)
IsQuiet-set_ready proc p =
    IsQuiet-update proc p (record (proc p) { state = ready }) refl
      (λ h. absurd (true_is_not_false (sym h))) (λ h. absurd (true_is_not_false (sym h)))

pub IsQuiet-set_running : (proc : ℕ → Process) (p : ℕ) → IsQuiet proc (set_state proc p running)
IsQuiet-set_running proc p =
    IsQuiet-update proc p (record (proc p) { state = running }) refl
      (λ h. absurd (true_is_not_false (sym h))) (λ h. absurd (true_is_not_false (sym h)))

pub IsQuiet-if :
    (b : Bool) (proc x y : ℕ → Process)
    → IsQuiet proc x
    → IsQuiet proc y
    → IsQuiet proc (if b then x else y)
IsQuiet-if true proc x y hx hy = hx
IsQuiet-if false proc x y hx hy = hy

IsQuiet-splice :
    (n : ℕ) (s : Sched) (p prev node : ℕ) → IsQuiet s.proc (splice n s p prev node).proc
unfolding splice
IsQuiet-splice zero s p prev node = IsQuiet-refl s.proc
IsQuiet-splice (suc n) s p prev node = elim (Bool-cases (node == p)) [
  | inl e ↦ rw e (IsQuiet-set_next s.proc prev (s.proc node).next)
  | inr e ↦ rw e (IsQuiet-splice n s p node (s.proc node).next)
]

splice-table : (n : ℕ) (s : Sched) (p prev node : ℕ) → (splice n s p prev node).table ≡ s.table
unfolding splice
splice-table zero s p prev node = refl
splice-table (suc n) s p prev node = elim (Bool-cases (node == p)) [
  | inl e ↦ rw e refl
  | inr e ↦ rw e (splice-table n s p node (s.proc node).next)
]

-- `scheduler_remove` changes links of the queue alone.
pub scheduler_remove-IsQuiet :
    (s : Sched) (p : ℕ)
    → IsQuiet s.proc (scheduler_remove s p).proc × ((scheduler_remove s p).table ≡ s.table)
unfolding scheduler_remove
scheduler_remove-IsQuiet s p = elim (Bool-cases (p == 0 || s.head == 0)) [
  | inl a ↦ rw a (IsQuiet-refl s.proc, refl)
  | inr a ↦ elim (Bool-cases (s.head == p && s.head == s.tail)) [
    | inl b ↦ rw (a, b) (IsQuiet-refl s.proc, refl)
    | inr b ↦
        rw (a, b)
          (
            IsQuiet-splice max_processes s p s.tail s.head,
            splice-table max_processes s p s.tail s.head,
          )
  ]
]

IsQuiet-wake : (now : ℕ) (proc : ℕ → Process) (p : ℕ) → IsQuiet proc (wake now proc p)
unfolding wake
IsQuiet-wake now proc p =
    IsQuiet-if (not (p == 0) && is_sleeping (proc p).state && leb (proc p).wake_at_tick now) proc
      (set_state proc p ready) proc (IsQuiet-set_ready proc p) (IsQuiet-refl proc)

pub IsQuiet-wake_sleepers :
    (now : ℕ) (ps : List ℕ) (proc : ℕ → Process) → IsQuiet proc (wake_sleepers now ps proc)
unfolding wake_sleepers
IsQuiet-wake_sleepers now [] proc = IsQuiet-refl proc
IsQuiet-wake_sleepers now (p ∷ ps) proc =
    IsQuiet-trans proc (wake now proc p) (wake_sleepers now ps (wake now proc p))
      (IsQuiet-wake now proc p) (IsQuiet-wake_sleepers now ps (wake now proc p))
