-- ===== src/Scheduler/Pick.antt =====
-- The walk of `scheduler_tick` of kernel/processes/scheduler.c over the queue.
use acorn_os.Scheduler.{Process, is_runnable, pick}
use acorn_os.Common.{
  ℕ, zero, suc, ◌≤◌, ◌<◌, ◌≡◌, refl, ap, ◌≢◌, ◌⊎◌, inl, inr, true, false, arith, ◌==◌, ==_iff,
  Bool-cases,
}

-- The process `k` places further in the queue.
abbrev pub along : (ℕ → Process) → ℕ → ℕ → ℕ
along proc zero p = p
along proc (suc k) p = along proc k (proc p).next

-- The walk goes past `p`.
abbrev pub Skips : (ℕ → Process) → ℕ → ℕ → Type 0
Skips proc old p = (is_runnable proc old p ≡ false) × (p ≢ old)

Skips-along :
    (proc : ℕ → Process) (old new k : ℕ)
    → Skips proc old new
    → ((j : ℕ) → j < k → Skips proc old (along proc j (proc new).next))
    → (j : ℕ) → j < suc k
    → Skips proc old (along proc j new)
Skips-along proc old new k s h zero l = s
Skips-along proc old new k s h (suc j) l = h j (omega arith)

-- The walk of at most `n` steps from `new` along the queue ends at a place `k`: every process before
-- it is neither runnable nor the outgoing one, and the one at `k` is runnable, or the outgoing one, or
-- the walk has used up its steps.
pub pick_lem :
    (n : ℕ) (proc : ℕ → Process) (old new : ℕ)
    → (k : ℕ) × (k ≤ n)
      × (pick n proc old new ≡ along proc k new)
      × ((j : ℕ) → j < k → Skips proc old (along proc j new))
      × ((is_runnable proc old (along proc k new) ≡ true) ⊎ ((along proc k new ≡ old) ⊎ (k ≡ n)))
unfolding pick
pick_lem zero proc old new = (0, omega arith, refl, λ j l. absurd (omega arith), inr (inr refl))
pick_lem (suc n) proc old new = elim (Bool-cases (is_runnable proc old new)) [
  | inl r ↦ (0, omega arith, rw (r, pick) refl, λ j l. absurd (omega arith), inl r)
  | inr r ↦ elim (Bool-cases (new == old)) [
    | inl e ↦ (
      0,
      omega arith,
      rw (r, e, pick) refl,
      λ j l. absurd (omega arith),
      inr (inl ((==_iff new old).0 e)),
    )
    | inr e ↦
        let (k, le, is, before, at) = pick_lem n proc old (proc new).next in
        (
          suc k,
          omega arith,
          rw (r, e, pick) is,
          Skips-along proc old new k (r, λ s. ground arith) before,
          elim at [
            | inl a ↦ inl a
            | inr b ↦ elim b [ inl c ↦ inr (inl c) | inr d ↦ inr (inr (ap suc d)) ]
          ],
        )
  ]
]
