-- ===== src/Concurrency/RwLock/Safety.antt =====
-- What holds in every state that the lock of src/concurrency/rwlock.cpp can reach.

use cpp_db.Prelude.{
  ==_iff, Bool-cases, arith, false, inl, inr, ltb, ltb→lt, true, ◌+◌, ◌<◌, ◌==◌, ◌≡◌, ◌⊎◌,
}
use cpp_db.Concurrency.RwLock.{
  Reachable, RwLock, Step, System, calls_read_lock, calls_read_unlock, calls_write_lock,
  calls_write_unlock, may_read, may_write, moves, read_lock, retries_read, retries_write,
  retry_read, starts, wakes_reader, wakes_writer,
}
use cpp_db.Concurrency.RwLock.Parts.{
  IsSound, initial-IsSound, may_read-free, notify_writer-IsSound, read_unlock-IsSound,
  retry_write-IsSound, try_read-IsSound, write_lock-IsSound, write_unlock-IsSound,
}

Step-IsSound : (s s' : System) → IsSound s → Step s s' → IsSound s'
unfolding read_lock retry_read
Step-IsSound s _ i calls_read_lock = try_read-IsSound s i
Step-IsSound s _ i calls_write_lock = write_lock-IsSound s i
Step-IsSound s _ i (calls_read_unlock h) = read_unlock-IsSound s h i
Step-IsSound s _ i (calls_write_unlock h) = write_unlock-IsSound s h i
Step-IsSound s _ i (wakes_reader h) = record {
  readers_counted = i.readers_counted;
  writers_counted = i.writers_counted;
  writer_alone = i.writer_alone;
  readers_wait = λ k. i.readers_wait h;
  writers_wait = i.writers_wait;
}
Step-IsSound s _ i (wakes_writer h) = notify_writer-IsSound s (record {
  readers_counted = i.readers_counted;
  writers_counted = i.writers_counted;
  writer_alone = i.writer_alone;
  readers_wait = i.readers_wait;
})
Step-IsSound s _ i (retries_read h) = try_read-IsSound _ (record {
  readers_counted = i.readers_counted;
  writers_counted = i.writers_counted;
  writer_alone = i.writer_alone;
  readers_wait = i.readers_wait;
  writers_wait = i.writers_wait;
})
Step-IsSound s _ i (retries_write h) = retry_write-IsSound s h i

Reachable-IsSound : (s : System) → Reachable s → IsSound s
Reachable-IsSound _ starts = initial-IsSound
Reachable-IsSound _ (moves s s' r step) = Step-IsSound s s' (Reachable-IsSound s r) step

-- In every reachable state at most one thread holds the lock to write, none holds it to read at the
-- same time, and the fields count the threads that read and that wait to write.
pub Reachable-excludes :
    (s : System)
    → Reachable s
    → ((s.writing ≡ 0) ⊎ ((s.writing ≡ 1) × (s.reading ≡ 0)))
      × (s.lock.active_readers ≡ s.reading)
      × (s.lock.waiting_writers ≡ s.asleep_writers + s.awake_writers)
Reachable-excludes s r =
    let i = Reachable-IsSound s r in
    (ground (arith, i.writer_alone), i.readers_counted, i.writers_counted)

may_write-idle : (l : RwLock) → l.writer_active ≡ false → l.active_readers ≡ 0 → may_write l ≡ true
unfolding may_write
may_write-idle l h k = ground arith

idle :
    (s : System)
    → IsSound s
    → s.reading + s.writing ≡ 0
    → (s.lock.writer_active ≡ false) × (s.lock.active_readers ≡ 0)
idle s i z = ground (arith, z, i.writer_alone, i.readers_counted)

progress :
    (s : System)
    → IsSound s
    → 0 < s.asleep_readers + s.awake_readers + s.asleep_writers + s.awake_writers
    → s.reading + s.writing ≡ 0
    → ((0 < s.awake_writers) × (may_write s.lock ≡ true))
      ⊎ ((0 < s.awake_readers) × (may_read s.lock ≡ true))
progress s i h z =
    let (quiet, none_reads) = idle s i z in
    let free = may_write-idle s.lock quiet none_reads in
    elim (Bool-cases (s.lock.waiting_writers == 0)) [
      | inr n ↦ inl (ground (arith, n, i.writers_counted, i.writers_wait free), free)
      | inl y ↦ inr (
        ground (arith, h, y, quiet, i.writers_counted, i.readers_wait),
        may_read-free s.lock quiet ((==_iff _ 0).0 y),
      )
    ]

-- No wake-up is lost: in a reachable state where threads wait, one holds the lock and will release
-- it, or one that waits is awake and its condition holds.
pub Reachable-progress :
    (s : System)
    → Reachable s
    → 0 < s.asleep_readers + s.awake_readers + s.asleep_writers + s.awake_writers
    → (0 < s.reading + s.writing)
      ⊎ (((0 < s.awake_writers) × (may_write s.lock ≡ true))
          ⊎ ((0 < s.awake_readers) × (may_read s.lock ≡ true)))
Reachable-progress s r h =
    let i = Reachable-IsSound s r in
    elim (Bool-cases (ltb 0 (s.reading + s.writing))) [
      | inl y ↦ inl (ltb→lt 0 _ y)
      | inr n ↦ inr (progress s i h (ground (arith, n)))
    ]
