-- ===== src/Concurrency/RwLock.antt =====
-- include/concurrency/RWLock.hpp and src/concurrency/rwlock.cpp. A method holds the mutex from its
-- start, or from where `wait` returns, to its end, or to where it waits, so these parts are the
-- steps. A system counts the threads in each phase: waiting ones are asleep in `wait` until a
-- notification or a spurious wake-up, and then awake, to check their condition again.
pub mod Parts
pub mod Safety
use cpp_db.Prelude.{Bool, false, if◌then◌else◌, ltb, not, true, ℕ, ◌&&◌, ◌+◌, ◌-◌, ◌<◌, ◌==◌}

-- The fields under the mutex.
pub record RwLock : Type 0 where
  pub active_readers : ℕ
  pub waiting_writers : ℕ
  pub writer_active : Bool

-- The conditions that the two waits check.
unfoldable pub may_read : RwLock → Bool
may_read l = not l.writer_active && (l.waiting_writers == 0)

unfoldable pub may_write : RwLock → Bool
may_write l = not l.writer_active && (l.active_readers == 0)

pub record System : Type 0 where
  pub lock : RwLock
  pub asleep_readers : ℕ
  pub awake_readers : ℕ
  pub reading : ℕ
  pub asleep_writers : ℕ
  pub awake_writers : ℕ
  pub writing : ℕ

abbrev pub initial : System
initial = record {
  lock = record { active_readers = 0; waiting_writers = 0; writer_active = false };
  asleep_readers = 0;
  awake_readers = 0;
  reading = 0;
  asleep_writers = 0;
  awake_writers = 0;
  writing = 0;
}

-- `writersCv_.notify_one()`: one of the sleeping writers, if there is one.
unfoldable pub notify_writer : System → System
notify_writer s =
    if s.asleep_writers == 0
    then s
    else record s { asleep_writers = s.asleep_writers - 1; awake_writers = s.awake_writers + 1 }

-- `readersCv_.notify_all()`
unfoldable pub notify_readers : System → System
notify_readers s = record s {
  asleep_readers = 0;
  awake_readers = s.awake_readers + s.asleep_readers;
}

-- The end of `readLock`, once its condition holds, or its wait.
unfoldable pub try_read : System → System
try_read s =
    if may_read s.lock
    then record s {
      lock = record s.lock { active_readers = s.lock.active_readers + 1 };
      reading = s.reading + 1;
    }
    else record s { asleep_readers = s.asleep_readers + 1 }

-- The end of `writeLock`, once its condition holds, or its wait.
unfoldable pub try_write : System → System
try_write s =
    if may_write s.lock
    then record s {
      lock = record s.lock { waiting_writers = s.lock.waiting_writers - 1; writer_active = true };
      writing = s.writing + 1;
    }
    else record s { asleep_writers = s.asleep_writers + 1 }

-- `readLock` up to its end or its wait.
unfoldable pub read_lock : System → System
read_lock s = try_read s

-- `writeLock` up to its end or its wait.
unfoldable pub write_lock : System → System
write_lock s =
    try_write (record s { lock = record s.lock { waiting_writers = s.lock.waiting_writers + 1 } })

-- `readUnlock`
unfoldable pub read_unlock : System → System
read_unlock s =
    let t = record s {
      lock = record s.lock { active_readers = s.lock.active_readers - 1 };
      reading = s.reading - 1;
    } in
    if t.lock.active_readers == 0 then notify_writer t else t

-- `writeUnlock`
unfoldable pub write_unlock : System → System
write_unlock s =
    let t = record s { lock = record s.lock { writer_active = false }; writing = s.writing - 1 } in
    if ltb 0 t.lock.waiting_writers then notify_writer t else notify_readers t

-- A waiting thread that is awake checks its condition again.
unfoldable pub retry_read : System → System
retry_read s = try_read (record s { awake_readers = s.awake_readers - 1 })

unfoldable pub retry_write : System → System
retry_write s = try_write (record s { awake_writers = s.awake_writers - 1 })

-- The steps: any thread may call, a thread that holds the lock may release it, and a waiting thread
-- may wake up, also spuriously, or check again.
pub data Step (s : System) : System → Type 0 where
  calls_read_lock : Step s (read_lock s)
  calls_write_lock : Step s (write_lock s)
  calls_read_unlock : 0 < s.reading → Step s (read_unlock s)
  calls_write_unlock : 0 < s.writing → Step s (write_unlock s)
  wakes_reader :
      0 < s.asleep_readers
      → Step s
          (record s { asleep_readers = s.asleep_readers - 1; awake_readers = s.awake_readers + 1 })
  wakes_writer : 0 < s.asleep_writers → Step s (notify_writer s)
  retries_read : 0 < s.awake_readers → Step s (retry_read s)
  retries_write : 0 < s.awake_writers → Step s (retry_write s)

pub data Reachable : System → Type 0 where
  starts : Reachable initial
  moves : (s s' : System) → Reachable s → Step s s' → Reachable s'
