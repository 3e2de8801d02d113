-- ===== src/FilePool/Waiting.antt =====
-- The threads that wait for a handle of the pool of src/file_pool.rs, in every order of the steps.
use retoc.FilePool.{
  start, acquired, not_opened, waited, woken_alone, dropped, must_wait, enters, resumes, notify_one,
  acquire_round, take_or_open, open_new, lock, new, Pool, Thread, drop_handle, wait, Reachable,
  CanRun, Round, got, failed,
}
use retoc.Prelude.{
  inr, ◌∷◌, inl, suc, refl, [], ℕ, Bool-cases, Bool, ◌<◌, ◌==◌, arith, List, length, ◌≡◌, ◌+◌, ltb,
  ◌≤◌, subst, ◌++◌, length-append,
}
use retoc.FilePool.Limit.{IsPool, Reachable-IsPool, lock-IsPool}

-- No handle is forgotten while a thread waits: all handles are open, and a woken thread has still to
-- run for each that is available.
abbrev Serves : ℕ → Pool → Type 0
Serves m p = 0 < p.waiting → (p.active_count ≡ m) × (length p.available_files ≤ p.woken)

-- A thread that locks the pool finds at most one handle more than the other woken threads will take.
abbrev Locked : ℕ → Pool → Type 0
Locked m p = 0 < p.waiting → (p.active_count ≡ m) × (length p.available_files ≤ p.woken + 1)

abbrev ServesRound : ℕ → Pool → Round → Type 0
ServesRound m p (got handle q) = Serves m q
ServesRound m p (failed q) = Serves m q
ServesRound m p must_wait = (p.active_count ≡ m) × (length p.available_files ≡ 0)

open_new-Serves :
    (m : ℕ) (p : Pool) (file : ℕ) (opens : Bool)
    → IsPool m p
    → Locked m p
    → p.available_files ≡ []
    → ServesRound m p (open_new p file opens)
unfolding open_new
open_new-Serves m p file opens v s e =
    let none_left : length p.available_files ≡ 0 = rw e refl in
    elim (Bool-cases (ltb p.active_count p.max_handles)) [
      | inr full ↦ rw full (ground (arith, v.limit, v.count, v.few, none_left), none_left)
      | inl room ↦
          let few : p.active_count < m = ground (arith, room, v.limit) in
          elim (Bool-cases opens) [
            | inl o ↦ rw (room, o) (λ w. absurd (omega (arith, few, s w)))
            | inr o ↦ rw (room, o) (λ w. absurd (omega (arith, few, s w)))
          ]
    ]

take_or_open-Serves :
    (m : ℕ) (p : Pool) (file : ℕ) (opens : Bool) (available : List ℕ)
    → IsPool m p
    → Locked m p
    → p.available_files ≡ available
    → ServesRound m p (take_or_open p file opens available)
unfolding take_or_open
take_or_open-Serves m p file opens [] v s e = open_new-Serves m p file opens v s e
take_or_open-Serves m p file opens (handle ∷ rest) v s e = λ w.
    let some_left : length p.available_files ≡ suc (length rest) = rw e refl in
    ((s w).0, omega (arith, s w, some_left))

round-Serves :
    (m : ℕ) (p : Pool) (file : ℕ) (opens : Bool)
    → IsPool m p
    → Locked m p
    → ServesRound m p (acquire_round p file opens)
unfolding acquire_round
round-Serves m p file opens v s = take_or_open-Serves m p file opens p.available_files v s refl

lock-Locked : (m : ℕ) (t : Thread) (p : Pool) → CanRun t p → Serves m p → Locked m (lock t p)
unfolding lock
lock-Locked m enters p runs s w = ((s w).0, omega (arith, s w))
lock-Locked m resumes p runs s w = ((s w).0, omega (arith, runs, s w))

notify_one-Serves : (m : ℕ) (p : Pool) → Locked m p → Serves m (notify_one p)
unfolding notify_one
notify_one-Serves m p s = elim (Bool-cases (p.waiting == 0)) [
  | inl e ↦ rw e (λ w. absurd (ground (arith, e, w)))
  | inr e ↦
      let some_wait : 0 < p.waiting = ground (arith, e) in
      rw e (λ w. ((s some_wait).0, omega (arith, s some_wait)))
]

Reachable-Serves : (m : ℕ) (p : Pool) → Reachable m p → Serves m p
unfolding new drop_handle wait
Reachable-Serves m p start w = absurd (omega (arith, w))
Reachable-Serves m p (acquired before q t file opens handle r runs h) w =
    subst (ServesRound m (lock t before)) h
      (round-Serves m (lock t before) file opens
        (lock-IsPool m t before (Reachable-IsPool m before r))
        (lock-Locked m t before runs (Reachable-Serves m before r)))
      w
Reachable-Serves m p (not_opened before q t file opens r runs h) w =
    subst (ServesRound m (lock t before)) h
      (round-Serves m (lock t before) file opens
        (lock-IsPool m t before (Reachable-IsPool m before r))
        (lock-Locked m t before runs (Reachable-Serves m before r)))
      w
Reachable-Serves m p (waited before t file opens r runs h) w =
    let full = subst (ServesRound m (lock t before)) h (
      round-Serves m (lock t before) file opens
        (lock-IsPool m t before (Reachable-IsPool m before r))
        (lock-Locked m t before runs (Reachable-Serves m before r))) in
    (full.0, omega (arith, full.1))
Reachable-Serves m p (woken_alone before r) w =
    notify_one-Serves m before
      (λ k. let s = Reachable-Serves m before r k in (s.0, omega (arith, s))) w
Reachable-Serves m p (dropped before i handle others r h) w =
    notify_one-Serves m
      (record before { available_files = before.available_files ++ handle ∷ []; taken = others })
      (λ k.
        let s = Reachable-Serves m before r k in
        (s.0, omega (arith, s, length-append before.available_files (handle ∷ []))))
      w

-- Whatever the threads do, in every order: while a thread waits, as many handles as the limit are
-- open, and for each of them that is available another thread was woken that has not run yet.
pub waiting_served :
    (m : ℕ) (p : Pool)
    → Reachable m p
    → 0 < p.waiting
    → (length p.available_files + length p.taken ≡ m) × (length p.available_files ≤ p.woken)
waiting_served m p r w =
    let v = Reachable-IsPool m p r in
    let s = Reachable-Serves m p r w in (omega (arith, v.count, s.0), s.1)
