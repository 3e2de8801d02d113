-- ===== src/FilePool/Limit.antt =====
-- The limit of the pool of src/file_pool.rs, in every order of the threads' steps.
use retoc.Prelude.{
  ℕ, ◌+◌, ◌≤◌, ◌≡◌, List, [], ◌∷◌, length, length-append, Bool, ltb, arith, refl, some, zero, suc,
  inl, inr, subst, Bool-cases, ◌==◌, ◌++◌,
}
use retoc.FilePool.{
  enters, resumes, Pool, new, Round, got, failed, must_wait, open_new, acquire_round, remove,
  drop_handle, Reachable, start, take_or_open, acquired, not_opened, dropped, lock, wait,
  notify_one, waited, Thread, woken_alone,
}

-- Every open handle is available or taken, and there are no more of them than the limit.
pub record IsPool (max_handles : ℕ) (p : Pool) : Type 0 where
  pub limit : p.max_handles ≡ max_handles
  pub count : length p.available_files + length p.taken ≡ p.active_count
  pub few : p.active_count ≤ max_handles

-- What a round from a valid pool gives: a valid pool, or a wait while all handles are out.
abbrev Keeps : ℕ → Pool → Round → Type 0
Keeps m p (got handle q) = IsPool m q
Keeps m p (failed q) = IsPool m q
Keeps m p must_wait = length p.taken ≡ m

open_new-Keeps :
    (m : ℕ) (p : Pool) (file : ℕ) (opens : Bool)
    → IsPool m p
    → p.available_files ≡ []
    → Keeps m p (open_new p file opens)
unfolding open_new
open_new-Keeps m p file opens v e =
    let none_left : length p.available_files ≡ 0 = rw e refl in
    elim (Bool-cases (ltb p.active_count p.max_handles)) [
      | inr full ↦ rw full (ground (arith, v.limit, v.count, v.few, none_left))
      | inl room ↦ elim (Bool-cases opens) [
        | inl o ↦
            rw (room, o)
              (record {
                limit = v.limit;
                count = omega (arith, v.count);
                few = ground (arith, v.limit);
              })
        | inr o ↦ rw (room, o) v
      ]
    ]

take_or_open-Keeps :
    (m : ℕ) (p : Pool) (file : ℕ) (opens : Bool) (available : List ℕ)
    → IsPool m p
    → p.available_files ≡ available
    → Keeps m p (take_or_open p file opens available)
unfolding take_or_open
take_or_open-Keeps m p file opens [] v e = open_new-Keeps m p file opens v e
take_or_open-Keeps m p file opens (handle ∷ rest) v e =
    let count : suc (length rest) + length p.taken ≡ p.active_count = rw e at v.count in
    record { limit = v.limit; count = omega (arith, count); few = v.few }

round-Keeps :
    (m : ℕ) (p : Pool) (file : ℕ) (opens : Bool)
    → IsPool m p
    → Keeps m p (acquire_round p file opens)
unfolding acquire_round
round-Keeps m p file opens v = take_or_open-Keeps m p file opens p.available_files v refl

length-remove :
    (i : ℕ) (xs ys : List ℕ) (x : ℕ) → remove i xs ≡ some (x, ys) → length xs ≡ 1 + length ys
unfolding remove
length-remove i [] ys x h = cc
length-remove zero (y ∷ xs) ys x h = ground arith
length-remove (suc i) (y ∷ xs) ys x h = grind (arith, length-remove i xs)

pub lock-IsPool : (m : ℕ) (t : Thread) (p : Pool) → IsPool m p → IsPool m (lock t p)
unfolding lock
lock-IsPool m enters p v = v
lock-IsPool m resumes p v = record { limit = v.limit; count = v.count; few = v.few }

notify_one-IsPool : (m : ℕ) (p : Pool) → IsPool m p → IsPool m (notify_one p)
unfolding notify_one
notify_one-IsPool m p v = elim (Bool-cases (p.waiting == 0)) [
  | inl e ↦ rw e v
  | inr e ↦ rw e (record { limit = v.limit; count = v.count; few = v.few })
]

-- Whatever the threads do, in every order: each open handle is available or taken, and there are
-- no more of them than the limit.
pub Reachable-IsPool : (m : ℕ) (p : Pool) → Reachable m p → IsPool m p
unfolding new drop_handle wait
Reachable-IsPool m p start = record { limit = refl; count = refl; few = omega arith }
Reachable-IsPool m p (acquired before q t file opens handle r runs h) =
    let v = lock-IsPool m t before (Reachable-IsPool m before r) in
    subst (Keeps m (lock t before)) h (round-Keeps m (lock t before) file opens v)
Reachable-IsPool m p (not_opened before q t file opens r runs h) =
    let v = lock-IsPool m t before (Reachable-IsPool m before r) in
    subst (Keeps m (lock t before)) h (round-Keeps m (lock t before) file opens v)
Reachable-IsPool m p (waited before t file opens r runs h) =
    let v = lock-IsPool m t before (Reachable-IsPool m before r) in
    record { limit = v.limit; count = v.count; few = v.few }
Reachable-IsPool m p (woken_alone before r) =
    notify_one-IsPool m before (Reachable-IsPool m before r)
Reachable-IsPool m p (dropped before i handle others r h) =
    let v = Reachable-IsPool m before r in
    notify_one-IsPool m
      (record before { available_files = before.available_files ++ handle ∷ []; taken = others })
      (record {
        limit = v.limit;
        count = omega (
          arith,
          v.count,
          length-append before.available_files (handle ∷ []),
          length-remove i before.taken others handle h,
        );
        few = v.few;
      })
