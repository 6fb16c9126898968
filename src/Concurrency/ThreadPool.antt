-- ===== src/Concurrency/ThreadPool.antt =====
-- include/concurrency/ThreadPool.hpp and src/concurrency/thread_pool.cpp: the steps of the workers,
-- of the threads that submit, and of the destructor. Workers are not told apart: they are counted
-- by what they do. A task is a number; whether it throws makes no difference, since the worker
-- swallows it. Each step holds the mutex once, or notifies, which the code does without it.
pub mod Progress
use cpp_db.Prelude.{
  Bool, List, Result, [], codes, erase_at, err, false, if◌then◌else◌, invalid_argument, length, ltb,
  ok, runtime_error, suc, true, zero, ℕ, ◌++◌, ◌+◌, ◌-◌, ◌<◌, ◌∷◌, ◌≡◌,
}

pub record ThreadPool : Type 0 where
  pub tasks : List ℕ
  pub stopping : Bool
  -- Workers before the lock of their loop, in `cv_.wait`, and returned.
  pub looking : ℕ
  pub sleeping : ℕ
  pub finished : ℕ
  -- The tasks that workers are in.
  pub running : List ℕ
  -- The calls of `notify_one` that `submit` has not made yet, and that of `notify_all`.
  pub owed_notices : ℕ
  pub owes_all : Bool
  -- What was submitted, and what workers have taken.
  pub submitted : List ℕ
  pub started : List ℕ

-- The constructor.
unfoldable pub make_thread_pool : ℕ → Result ThreadPool
make_thread_pool zero = err (invalid_argument (codes "ThreadPool: threadCount must be >= 1"))
make_thread_pool (suc n) = ok (record {
  tasks = [];
  stopping = false;
  looking = suc n;
  sleeping = 0;
  finished = 0;
  running = [];
  owed_notices = 0;
  owes_all = false;
  submitted = [];
  started = [];
})

-- `submit`, up to the end of the locked block.
unfoldable pub submit_task : ThreadPool → ℕ → ThreadPool × Result (Unit {0})
submit_task p task =
    if p.stopping then (p, err (runtime_error (codes "ThreadPool: submit after shutdown"))) else (
      record p {
        tasks = p.tasks ++ (task ∷ []);
        submitted = p.submitted ++ (task ∷ []);
        owed_notices = p.owed_notices + 1;
      },
      ok tt,
    )

-- A worker that sleeps, if there is one, wakes up.
unfoldable pub wake_one : ThreadPool → ThreadPool
wake_one p =
    if ltb 0 p.sleeping then record p { looking = p.looking + 1; sleeping = p.sleeping - 1 } else p

-- `cv_.notify_one()` of `submit`.
unfoldable pub give_notice : ThreadPool → ThreadPool
unfolding wake_one
give_notice p = wake_one (record p { owed_notices = p.owed_notices - 1 })

-- The destructor, up to the end of the locked block.
unfoldable pub begin_stop : ThreadPool → ThreadPool
begin_stop p = record p { stopping = true; owes_all = true }

-- `cv_.notify_all()` of the destructor.
unfoldable pub wake_all : ThreadPool → ThreadPool
wake_all p = record p { looking = p.looking + p.sleeping; sleeping = 0; owes_all = false }

-- A worker under the lock of its loop: it waits, or returns, or takes the first task.
unfoldable pub look_at : ThreadPool → List ℕ → ThreadPool
look_at p [] =
    if p.stopping
    then record p { looking = p.looking - 1; finished = p.finished + 1 }
    else record p { looking = p.looking - 1; sleeping = p.sleeping + 1 }
look_at p (task ∷ tasks) = record p {
  tasks = tasks;
  looking = p.looking - 1;
  running = p.running ++ (task ∷ []);
  started = p.started ++ (task ∷ []);
}

unfoldable pub look_for_task : ThreadPool → ThreadPool
unfolding look_at
look_for_task p = look_at p p.tasks

-- A task ends, by return or by an exception.
unfoldable pub finish_task : ThreadPool → ℕ → ThreadPool
finish_task p i = record p { running = erase_at p.running i; looking = p.looking + 1 }

pub data PoolStep (p : ThreadPool) : ThreadPool → Type 0 where
  submits : (task : ℕ) → PoolStep p (submit_task p task).0
  gives_notice : 0 < p.owed_notices → PoolStep p (give_notice p)
  begins_stop : p.stopping ≡ false → PoolStep p (begin_stop p)
  wakes_all : p.owes_all ≡ true → PoolStep p (wake_all p)
  -- A worker wakes up without a notice.
  wakes_by_chance : 0 < p.sleeping → PoolStep p (wake_one p)
  looks : 0 < p.looking → PoolStep p (look_for_task p)
  finishes : (i : ℕ) → i < length p.running → PoolStep p (finish_task p i)

-- The pools that a pool of `n` workers can become.
pub data Works (n : ℕ) : ThreadPool → Type 0 where
  made_pool : (p : ThreadPool) → make_thread_pool n ≡ ok p → Works n p
  works_on : (p p' : ThreadPool) → Works n p → PoolStep p p' → Works n p'
