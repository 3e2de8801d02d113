-- ===== src/FilePool.antt =====
-- src/file_pool.rs: a pool of at most `max_handles` file handles. Threads take the lock in turn, so
-- a run is a sequence of steps: one round of the loop of `acquire`, the drop of a handle, or a
-- wakeup without a notification, which the condition variable allows. Handles are numbers, and
-- whether opening the file succeeds is an argument of the step.
pub mod Limit
pub mod Waiting
use retoc.Prelude.{
  ℕ, ◌+◌, List, [], ◌∷◌, Bool, ltb, if◌then◌else◌, none, zero, suc, some, ◌++◌, ◌≡◌, ◌-◌, ◌<◌, ◌==◌,
}
use retoc.Ser.Stream.{◌>>=◌, ◌>>◌}
use mathlib.Core.Option.{Option}

-- `PoolState`, with the limit, the handles that are out, the number of threads that wait on the
-- condition variable, and of those that were woken and have not taken the lock again.
pub record Pool : Type 0 where
  pub max_handles : ℕ
  pub available_files : List ℕ
  pub active_count : ℕ
  pub taken : List ℕ
  pub waiting : ℕ
  pub woken : ℕ

-- The new pool has opened the file once and closed it again.
unfoldable pub new : ℕ → Pool
new max_handles = record {
  max_handles = max_handles;
  available_files = [];
  active_count = 0;
  taken = [];
  waiting = 0;
  woken = 0;
}

-- What a round of the loop does: a handle, an error of opening, or a wait.
pub data Round : Type 0 where
  got : ℕ → Pool → Round
  failed : Pool → Round
  must_wait : Round

-- No handle is available: one is opened if the limit is not reached.
unfoldable pub open_new : Pool → ℕ → Bool → Round
open_new self file opens =
    if ltb self.active_count self.max_handles
    then if opens
      then got file
          (record self { active_count = self.active_count + 1; taken = file ∷ self.taken })
      else failed self
    else must_wait

-- A handle that is available is taken from the front of the queue.
unfoldable pub take_or_open : Pool → ℕ → Bool → List ℕ → Round
take_or_open self file opens [] = open_new self file opens
take_or_open self file opens (handle ∷ rest) =
    got handle (record self { available_files = rest; taken = handle ∷ self.taken })

unfoldable pub acquire_round : Pool → ℕ → Bool → Round
acquire_round self file opens = take_or_open self file opens self.available_files

-- The handle at a place of the list, and the others.
unfoldable pub remove : ℕ → List ℕ → Option (ℕ × List ℕ)
remove i [] = none
remove zero (x ∷ xs) = some (x, xs)
remove (suc i) (x ∷ xs) = elim (remove i xs) [ none ↦ none | some (y, ys) ↦ some (y, x ∷ ys) ]

-- `notify_one`: a thread that waits is woken, if there is one.
unfoldable pub notify_one : Pool → Pool
notify_one self =
    if self.waiting == 0
    then self
    else record self { waiting = self.waiting - 1; woken = self.woken + 1 }

-- `Drop` of a handle that is out: it goes to the back of the queue.
unfoldable pub drop_handle : Pool → ℕ → List ℕ → Pool
drop_handle self handle others =
    notify_one
      (record self { available_files = self.available_files ++ handle ∷ []; taken = others })

-- `wait`, until the thread is woken.
unfoldable pub wait : Pool → Pool
wait self = record self { waiting = self.waiting + 1 }

-- The thread of a round enters `acquire`, or was woken in it.
pub data Thread : Type 0 where
  enters resumes : Thread

abbrev pub CanRun : Thread → Pool → Type 0
CanRun enters self = Unit
CanRun resumes self = 0 < self.woken

unfoldable pub lock : Thread → Pool → Pool
lock enters self = self
lock resumes self = record self { woken = self.woken - 1 }

-- What threads can do to the pool, one after the other, from a new pool on.
pub data Reachable (max_handles : ℕ) : Pool → Type 0 where
  start : Reachable max_handles (new max_handles)
  acquired :
      (p q : Pool) (thread : Thread) (file : ℕ) (opens : Bool) (handle : ℕ)
      → Reachable max_handles p
      → CanRun thread p
      → acquire_round (lock thread p) file opens ≡ got handle q
      → Reachable max_handles q
  not_opened :
      (p q : Pool) (thread : Thread) (file : ℕ) (opens : Bool)
      → Reachable max_handles p
      → CanRun thread p
      → acquire_round (lock thread p) file opens ≡ failed q
      → Reachable max_handles q
  waited :
      (p : Pool) (thread : Thread) (file : ℕ) (opens : Bool)
      → Reachable max_handles p
      → CanRun thread p
      → acquire_round (lock thread p) file opens ≡ must_wait
      → Reachable max_handles (wait (lock thread p))
  woken_alone : (p : Pool) → Reachable max_handles p → Reachable max_handles (notify_one p)
  dropped :
      (p : Pool) (i handle : ℕ) (others : List ℕ)
      → Reachable max_handles p
      → remove i p.taken ≡ some (handle, others)
      → Reachable max_handles (drop_handle p handle others)
