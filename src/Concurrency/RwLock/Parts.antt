-- ===== src/Concurrency/RwLock/Parts.antt =====
-- The invariant of the lock of src/concurrency/rwlock.cpp, and the parts of its methods that keep it.

use cpp_db.Prelude.{
  Bool-cases, arith, false, inl, inr, ltb, ltb→lt, refl, suc, sym, true, ◌+◌, ◌-◌, ◌<◌, ◌==◌, ◌∙◌,
  ◌≡◌, ◌⊎◌,
}
use cpp_db.Concurrency.RwLock.{
  RwLock, System, initial, may_read, may_write, notify_readers, notify_writer, read_unlock,
  retry_write, try_read, try_write, write_lock, write_unlock,
}

-- The fields count the threads, a writer is alone, and no wake-up is lost.

pub record IsSound (s : System) : Type 0 where
  pub readers_counted : s.lock.active_readers ≡ s.reading
  pub writers_counted : s.lock.waiting_writers ≡ s.asleep_writers + s.awake_writers
  pub writer_alone :
      ((s.lock.writer_active ≡ true) × (s.writing ≡ 1) × (s.reading ≡ 0))
      ⊎ ((s.lock.writer_active ≡ false) × (s.writing ≡ 0))
  -- A reader sleeps only while a writer is active or waits.
  pub readers_wait :
      0 < s.asleep_readers → (s.lock.writer_active ≡ true) ⊎ (0 < s.lock.waiting_writers)
  -- Where the lock is free, not all waiting writers sleep.
  pub writers_wait : may_write s.lock ≡ true → 0 < s.asleep_writers → 0 < s.awake_writers

pub may_write-free :
    (l : RwLock) → may_write l ≡ true → (l.writer_active ≡ false) × (l.active_readers ≡ 0)
unfolding may_write
may_write-free l h = ground arith

pub may_read-free :
    (l : RwLock) → l.writer_active ≡ false → l.waiting_writers ≡ 0 → may_read l ≡ true
unfolding may_read
may_read-free l h k = ground arith

pub initial-IsSound : IsSound initial
unfolding may_write
initial-IsSound = record {
  readers_counted = refl;
  writers_counted = omega arith;
  writer_alone = inr (refl, refl);
  readers_wait = λ h. absurd (omega arith);
  writers_wait = λ h k. k;
}

pub try_read-IsSound : (s : System) → IsSound s → IsSound (try_read s)
unfolding try_read may_read may_write
try_read-IsSound s i = elim (Bool-cases (may_read s.lock)) [
  | inl y ↦ rw y (record {
    readers_counted = omega (arith, i.readers_counted);
    writers_counted = i.writers_counted;
    writer_alone = ground (arith, y, i.writer_alone);
    readers_wait = i.readers_wait;
    writers_wait = λ h k. ground (arith, h);
  })
  | inr n ↦ rw n (record {
    readers_counted = i.readers_counted;
    writers_counted = i.writers_counted;
    writer_alone = i.writer_alone;
    readers_wait = λ h. ground (arith, n);
    writers_wait = i.writers_wait;
  })
]

-- A writer that is counted as waiting, and runs its check.
record IsTrying (s : System) : Type 0 where
  readers_counted : s.lock.active_readers ≡ s.reading
  writers_counted : s.lock.waiting_writers ≡ suc (s.asleep_writers + s.awake_writers)
  writer_alone :
      ((s.lock.writer_active ≡ true) × (s.writing ≡ 1) × (s.reading ≡ 0))
      ⊎ ((s.lock.writer_active ≡ false) × (s.writing ≡ 0))

try_write-IsSound : (s : System) → IsTrying s → IsSound (try_write s)
unfolding try_write may_write
try_write-IsSound s i = elim (Bool-cases (may_write s.lock)) [
  | inl y ↦ rw y (record {
    readers_counted = i.readers_counted;
    writers_counted = omega (arith, i.writers_counted);
    writer_alone = ground (arith, y, i.writer_alone, i.readers_counted);
    readers_wait = λ h. inl refl;
    writers_wait = λ h k. cc;
  })
  | inr n ↦ rw n (record {
    readers_counted = i.readers_counted;
    writers_counted = omega (arith, i.writers_counted);
    writer_alone = i.writer_alone;
    readers_wait = λ h. inr (omega (arith, i.writers_counted));
    writers_wait = λ h k. absurd (cc (sym n ∙ h));
  })
]

pub write_lock-IsSound : (s : System) → IsSound s → IsSound (write_lock s)
unfolding write_lock
write_lock-IsSound s i = try_write-IsSound _ (record {
  readers_counted = i.readers_counted;
  writers_counted = omega (arith, i.writers_counted);
  writer_alone = i.writer_alone;
})

pub retry_write-IsSound : (s : System) → 0 < s.awake_writers → IsSound s → IsSound (retry_write s)
unfolding retry_write
retry_write-IsSound s h i = try_write-IsSound _ (record {
  readers_counted = i.readers_counted;
  writers_counted = omega (arith, i.writers_counted, h);
  writer_alone = i.writer_alone;
})

-- All but the wake-up of writers, which a notification brings about.
pub record IsAlmost (s : System) : Type 0 where
  pub readers_counted : s.lock.active_readers ≡ s.reading
  pub writers_counted : s.lock.waiting_writers ≡ s.asleep_writers + s.awake_writers
  pub writer_alone :
      ((s.lock.writer_active ≡ true) × (s.writing ≡ 1) × (s.reading ≡ 0))
      ⊎ ((s.lock.writer_active ≡ false) × (s.writing ≡ 0))
  pub readers_wait :
      0 < s.asleep_readers → (s.lock.writer_active ≡ true) ⊎ (0 < s.lock.waiting_writers)

pub notify_writer-IsSound : (s : System) → IsAlmost s → IsSound (notify_writer s)
unfolding notify_writer
notify_writer-IsSound s i = elim (Bool-cases (s.asleep_writers == 0)) [
  | inl y ↦ rw y (record {
    readers_counted = i.readers_counted;
    writers_counted = i.writers_counted;
    writer_alone = i.writer_alone;
    readers_wait = i.readers_wait;
    writers_wait = λ h k. ground (arith, y, k);
  })
  | inr n ↦ rw n (record {
    readers_counted = i.readers_counted;
    writers_counted = ground (arith, i.writers_counted, n);
    writer_alone = i.writer_alone;
    readers_wait = i.readers_wait;
    writers_wait = λ h k. omega arith;
  })
]

pub read_unlock-IsSound : (s : System) → 0 < s.reading → IsSound s → IsSound (read_unlock s)
unfolding read_unlock
read_unlock-IsSound s h i = elim (Bool-cases (s.lock.active_readers - 1 == 0)) [
  | inl y ↦ rw y (
      notify_writer-IsSound _ (record {
        readers_counted = omega (arith, i.readers_counted);
        writers_counted = i.writers_counted;
        writer_alone = ground (arith, h, i.writer_alone);
        readers_wait = i.readers_wait;
      }))
  | inr n ↦ rw n (record {
    readers_counted = omega (arith, i.readers_counted);
    writers_counted = i.writers_counted;
    writer_alone = ground (arith, h, i.writer_alone);
    readers_wait = i.readers_wait;
    writers_wait = λ j k. absurd (ground (arith, n, may_write-free _ j));
  })
]

pub write_unlock-IsSound : (s : System) → 0 < s.writing → IsSound s → IsSound (write_unlock s)
unfolding write_unlock notify_readers
write_unlock-IsSound s h i = elim (Bool-cases (ltb 0 s.lock.waiting_writers)) [
  | inl y ↦ rw y (
      notify_writer-IsSound _ (record {
        readers_counted = i.readers_counted;
        writers_counted = i.writers_counted;
        writer_alone = inr (refl, ground (arith, h, i.writer_alone));
        readers_wait = λ j. inr (ltb→lt 0 _ y);
      }))
  | inr n ↦ rw n (record {
    readers_counted = i.readers_counted;
    writers_counted = i.writers_counted;
    writer_alone = inr (refl, ground (arith, h, i.writer_alone));
    readers_wait = λ j. absurd (omega arith);
    writers_wait = λ j k. ground (arith, n, k, i.writers_counted);
  })
]
