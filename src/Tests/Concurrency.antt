-- ===== src/Tests/Concurrency.antt =====
-- A lock that one thread reads under while another waits to write.

use cpp_db.Prelude.{
  [], arith, false, get_elem?, length, none, refl, some, true, ℕ, ◌++◌, ◌+◌, ◌<◌, ◌∷◌, ◌≡◌, ◌≤◌,
  ◌⊎◌,
}
use cpp_db.Concurrency.LockFreeQueue.{
  Queue, exchange_tail, exchanges, make_queue, pop, store_at, store_link, stores,
}
use cpp_db.Concurrency.LockFreeQueue.Chain.{link}
use cpp_db.Concurrency.LockFreeQueue.Invariant.{contents}
use cpp_db.Concurrency.LockFreeQueue.Order.{
  Pops, Reaches, Reaches-fifo, Reaches-live, begins, goes_on,
}
use cpp_db.Concurrency.RwLock.{
  Reachable, System, calls_read_lock, calls_write_lock, initial, may_read, may_write, moves,
  read_lock, starts, try_read, try_write, write_lock,
}
use cpp_db.Concurrency.RwLock.Safety.{Reachable-excludes, Reachable-progress}
use cpp_db.Concurrency.ThreadPool.{
  ThreadPool, Works, look_for_task, looks, made_pool, make_thread_pool, submit_task, submits,
  works_on,
}
use cpp_db.Concurrency.ThreadPool.Progress.{Works-in_order, Works-progress}

abbrev contended : System
contended = write_lock (read_lock initial)

contended-Reachable : Reachable contended
contended-Reachable =
    moves (read_lock initial) contended (moves initial (read_lock initial) starts calls_read_lock)
      calls_write_lock

Reachable-excludes_example :
    ((contended.writing ≡ 0) ⊎ ((contended.writing ≡ 1) × (contended.reading ≡ 0)))
    × (contended.lock.active_readers ≡ contended.reading)
    × (contended.lock.waiting_writers ≡ contended.asleep_writers + contended.awake_writers)
Reachable-excludes_example = Reachable-excludes contended contended-Reachable

writer_waits :
    0
    < contended.asleep_readers + contended.awake_readers + contended.asleep_writers
      + contended.awake_writers
unfolding write_lock read_lock try_read try_write may_read may_write
writer_waits = omega arith

Reachable-progress_example :
    (0 < contended.reading + contended.writing)
    ⊎ (((0 < contended.awake_writers) × (may_write contended.lock ≡ true))
        ⊎ ((0 < contended.awake_readers) × (may_read contended.lock ≡ true)))
Reachable-progress_example = Reachable-progress contended contended-Reachable writer_waits

-- A queue with two items, the first of which is not linked yet.
abbrev two_items : Queue ℕ
two_items = store_link 0 (exchange_tail 8 (exchange_tail 7 make_queue))

two_items-Reaches : Reaches two_items
unfolding exchange_tail
two_items-Reaches =
    goes_on _ _ (goes_on _ _ (goes_on _ _ begins (exchanges 7)) (exchanges 8))
      (stores 0 (omega arith))

Reaches-fifo_example :
    (contents (exchange_tail 9 two_items) ≡ contents two_items ++ some 9 ∷ [])
    × (contents (store_link 0 two_items) ≡ contents two_items)
    × Pops two_items (pop two_items)
Reaches-fifo_example = Reaches-fifo two_items 9 0 two_items-Reaches

first_pending : get_elem? two_items.pending 0 ≡ some (0, 1)
unfolding store_link store_at exchange_tail
first_pending = refl

Reaches-live_example :
    (two_items.head ≤ 0) × (0 < length two_items.nodes) × (link two_items.nodes 0 ≡ none)
Reaches-live_example = Reaches-live two_items 0 (0, 1) two_items-Reaches first_pending

-- A pool of two workers, after a task was submitted and taken, and another submitted.
abbrev two_workers : ThreadPool
two_workers = record {
  tasks = [];
  stopping = false;
  looking = 2;
  sleeping = 0;
  finished = 0;
  running = [];
  owed_notices = 0;
  owes_all = false;
  submitted = [];
  started = [];
}

abbrev one_running : ThreadPool
one_running = (submit_task (look_for_task (submit_task two_workers 7).0) 8).0

one_running-Works : Works 2 one_running
unfolding make_thread_pool submit_task
one_running-Works =
    works_on _ _
      (works_on _ _ (works_on _ _ (made_pool two_workers refl) (submits 7)) (looks (omega arith)))
      (submits 8)

Works-in_order_example :
    (one_running.started ++ one_running.tasks ≡ one_running.submitted)
    × (one_running.looking
          + (one_running.sleeping + (one_running.finished + length one_running.running))
        ≡ 2)
Works-in_order_example = Works-in_order 2 one_running one_running-Works

one_waits : 0 < length one_running.tasks
unfolding submit_task look_for_task
one_waits = omega arith

Works-progress_example :
    (0 < length one_running.tasks
      → 0 < one_running.looking + (one_running.owed_notices + length one_running.running))
    × (0 < one_running.sleeping
        → length one_running.tasks ≤ one_running.looking + one_running.owed_notices)
Works-progress_example = Works-progress 2 one_running one_running-Works
