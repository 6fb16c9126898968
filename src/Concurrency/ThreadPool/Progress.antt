-- ===== src/Concurrency/ThreadPool/Progress.antt =====
-- The order of the tasks, and the wake-ups that are owed.

use cpp_db.Prelude.{
  Bool, Bool-cases, List, Result, [], ap, append_assoc, arith, false, if◌then◌else◌, inl, inr,
  length, length-append, ltb, ltb-false_le, ltb→lt, ok, ok_inj, refl, subst, suc, sym, true, zero,
  ℕ, ◌++◌, ◌+◌, ◌-◌, ◌<◌, ◌∙◌, ◌∷◌, ◌≡◌, ◌≤◌, ◌⊎◌,
}
use cpp_db.Concurrency.ThreadPool.{
  PoolStep, ThreadPool, Works, begin_stop, begins_stop, finish_task, finishes, give_notice,
  gives_notice, look_at, look_for_task, looks, made_pool, make_thread_pool, submit_task, submits,
  wake_all, wake_one, wakes_all, wakes_by_chance, works_on,
}
use cpp_db.Structures.BTree.Removal.Windows.{length-erase_at}

-- The tasks that are taken and those that wait are the submitted ones; the workers are all
-- accounted for; where a worker sleeps, each task that waits has a worker that will look, or a
-- notice that is owed; a worker has returned only from a stopped pool without tasks; and a stopped
-- pool owes its last notice or has no worker asleep.

pub record IsThreadPool (n : ℕ) (p : ThreadPool) : Type 0 where
  pub positive : 1 ≤ n
  pub fifo : p.started ++ p.tasks ≡ p.submitted
  pub workers : p.looking + (p.sleeping + (p.finished + length p.running)) ≡ n
  pub awake : (p.sleeping ≡ 0) ⊎ (length p.tasks ≤ p.looking + p.owed_notices)
  pub returned : (p.finished ≡ 0) ⊎ ((p.stopping ≡ true) × (length p.tasks ≡ 0))
  pub woken : (p.stopping ≡ false) ⊎ ((p.owes_all ≡ true) ⊎ (p.sleeping ≡ 0))

make_thread_pool-IsThreadPool :
    (n : ℕ) (p : ThreadPool) → make_thread_pool n ≡ ok p → IsThreadPool n p
unfolding make_thread_pool
make_thread_pool-IsThreadPool zero p h = cc
make_thread_pool-IsThreadPool (suc n) p h =
    subst (λ x. IsThreadPool (suc n) x) (ok_inj _ p h)
      (record {
        positive = omega arith;
        fifo = refl;
        workers = omega arith;
        awake = inl refl;
        returned = inl refl;
        woken = inl refl;
      })

-- A test is taken one way or the other.
by_test {ℓ κ} :
    {A : Type ℓ} (P : A → Type κ) (b : Bool) (x y : A)
    → (b ≡ true → P x)
    → (b ≡ false → P y)
    → P (if b then x else y)
by_test P true x y f g = f refl
by_test P false x y f g = g refl

submit_task-IsThreadPool :
    (n : ℕ) (p : ThreadPool) (task : ℕ) → IsThreadPool n p → IsThreadPool n (submit_task p task).0
unfolding submit_task
submit_task-IsThreadPool n p task i =
    by_test (λ (r : ThreadPool × Result (Unit {0})). IsThreadPool n r.0) p.stopping _ _ (λ y. i)
      (λ running.
        let len = length-append p.tasks (task ∷ []) in
        record {
          positive = i.positive;
          fifo =
              sym (append_assoc p.started p.tasks (task ∷ [])) ∙ ap (λ x. x ++ (task ∷ [])) i.fifo;
          workers = i.workers;
          awake = elim i.awake [ inl z ↦ inl z | inr l ↦ inr (omega arith) ];
          returned = elim i.returned [ inl z ↦ inl z | inr (y, z) ↦ absurd (cc (sym running ∙ y)) ];
          woken = inl running;
        })

wake_one-IsThreadPool :
    (n owed : ℕ) (p : ThreadPool)
    → IsThreadPool n p
    → p.owed_notices ≤ suc owed
    → (p.sleeping ≡ 0) ⊎ (length p.tasks ≤ p.looking + suc owed)
    → IsThreadPool n (wake_one (record p { owed_notices = owed }))
unfolding wake_one
wake_one-IsThreadPool n owed p i le a = elim (Bool-cases (ltb 0 p.sleeping)) [
  | inl y ↦
      let some_one = ltb→lt 0 p.sleeping y in
      rw y (record {
        positive = i.positive;
        fifo = i.fifo;
        workers = omega (arith, i.workers);
        awake = elim a [ inl z ↦ inl (omega arith) | inr l ↦ inr (omega arith) ];
        returned = i.returned;
        woken = elim i.woken [
          | inl z ↦ inl z
          | inr (inl z) ↦ inr (inl z)
          | inr (inr z) ↦ absurd (omega arith)
        ];
      })
  | inr none_there ↦
      let zero_there = ltb-false_le 0 p.sleeping none_there in
      rw none_there (record {
        positive = i.positive;
        fifo = i.fifo;
        workers = i.workers;
        awake = inl (omega arith);
        returned = i.returned;
        woken = i.woken;
      })
]

wake_all-IsThreadPool : (n : ℕ) (p : ThreadPool) → IsThreadPool n p → IsThreadPool n (wake_all p)
unfolding wake_all
wake_all-IsThreadPool n p i = record {
  positive = i.positive;
  fifo = i.fifo;
  workers = omega (arith, i.workers);
  awake = inl refl;
  returned = i.returned;
  woken = inr (inr refl);
}

look_at-IsThreadPool :
    (n : ℕ) (p : ThreadPool) (ts : List ℕ)
    → p.tasks ≡ ts
    → 0 < p.looking
    → IsThreadPool n p
    → IsThreadPool n (look_at p ts)
unfolding look_at
look_at-IsThreadPool n p [] e l i =
    let nothing : length p.tasks ≡ 0 = ap length e in
    by_test (λ r. IsThreadPool n r) p.stopping _ _
      (λ y. record {
        positive = i.positive;
        fifo = i.fifo;
        workers = omega (arith, i.workers);
        awake = inr (omega arith);
        returned = inr (y, nothing);
        woken = i.woken;
      })
      (λ z. record {
        positive = i.positive;
        fifo = i.fifo;
        workers = omega (arith, i.workers);
        awake = inr (omega arith);
        returned = elim i.returned [ inl r ↦ inl r | inr (y, g) ↦ absurd (cc (sym z ∙ y)) ];
        woken = inl z;
      })
look_at-IsThreadPool n p (t ∷ ts) e l i =
    let len : length p.tasks ≡ suc (length ts) = ap length e in
    record {
      positive = i.positive;
      fifo = append_assoc p.started (t ∷ []) ts ∙ (ap (λ x. p.started ++ x) (sym e) ∙ i.fifo);
      workers = omega (arith, i.workers, length-append p.running (t ∷ []));
      awake = elim i.awake [ inl z ↦ inl z | inr a ↦ inr (omega arith) ];
      returned = elim i.returned [ inl z ↦ inl z | inr (y, z) ↦ absurd (omega arith) ];
      woken = i.woken;
    }

finish_task-IsThreadPool :
    (n j : ℕ) (p : ThreadPool)
    → j < length p.running
    → IsThreadPool n p
    → IsThreadPool n (finish_task p j)
unfolding finish_task
finish_task-IsThreadPool n j p l i = record {
  positive = i.positive;
  fifo = i.fifo;
  workers = omega (arith, i.workers, length-erase_at p.running j l);
  awake = elim i.awake [ inl z ↦ inl z | inr a ↦ inr (omega arith) ];
  returned = i.returned;
  woken = i.woken;
}

PoolStep-IsThreadPool :
    (n : ℕ) (p p' : ThreadPool) → IsThreadPool n p → PoolStep p p' → IsThreadPool n p'
unfolding give_notice begin_stop look_for_task
PoolStep-IsThreadPool n p _ i (submits task) = submit_task-IsThreadPool n p task i
PoolStep-IsThreadPool n p _ i (gives_notice l) =
    wake_one-IsThreadPool n (p.owed_notices - 1) p i (omega arith)
      (elim i.awake [ inl z ↦ inl z | inr a ↦ inr (omega arith) ])
PoolStep-IsThreadPool n p _ i (begins_stop h) = record {
  positive = i.positive;
  fifo = i.fifo;
  workers = i.workers;
  awake = i.awake;
  returned = elim i.returned [ inl z ↦ inl z | inr (y, z) ↦ inr (refl, z) ];
  woken = inr (inl refl);
}
PoolStep-IsThreadPool n p _ i (wakes_all h) = wake_all-IsThreadPool n p i
PoolStep-IsThreadPool n p _ i (wakes_by_chance l) =
    wake_one-IsThreadPool n p.owed_notices p i (omega arith)
      (elim i.awake [ inl z ↦ inl z | inr a ↦ inr (omega arith) ])
PoolStep-IsThreadPool n p _ i (looks l) = look_at-IsThreadPool n p p.tasks refl l i
PoolStep-IsThreadPool n p _ i (finishes j l) = finish_task-IsThreadPool n j p l i

Works-IsThreadPool : (n : ℕ) (p : ThreadPool) → Works n p → IsThreadPool n p
Works-IsThreadPool n _ (made_pool p h) = make_thread_pool-IsThreadPool n p h
Works-IsThreadPool n _ (works_on p p' w step) =
    PoolStep-IsThreadPool n p p' (Works-IsThreadPool n p w) step

-- Whatever the order of the steps: the tasks that workers have taken, then those that wait, are
-- the submitted tasks in their order, each once; and every worker looks, sleeps, has returned or
-- is in a task.
pub Works-in_order :
    (n : ℕ) (p : ThreadPool)
    → Works n p
    → (p.started ++ p.tasks ≡ p.submitted)
      × (p.looking + (p.sleeping + (p.finished + length p.running)) ≡ n)
Works-in_order n p w = let i = Works-IsThreadPool n p w in (i.fifo, i.workers)

Works-some_one :
    (n : ℕ) (p : ThreadPool)
    → Works n p
    → 0 < length p.tasks
    → 0 < p.looking + (p.owed_notices + length p.running)
Works-some_one n p w l =
    let i = Works-IsThreadPool n p w in
    let all_in = i.workers in
    let some_worker = i.positive in
    elim i.awake [
      | inr a ↦ omega arith
      | inl z ↦ elim i.returned [ inl g ↦ omega arith | inr (y, g) ↦ absurd (omega arith) ]
    ]

-- No wake-up is lost, under any order of the steps and also while the pool stops. Where a task
-- waits, a worker is about to look for one, or is in a task behind which it looks, or a notice is
-- owed. And where a worker sleeps, for each task that waits another worker is about to look for one
-- or a notice is owed, so that no task waits for a running one to end.
pub Works-progress :
    (n : ℕ) (p : ThreadPool)
    → Works n p
    → (0 < length p.tasks → 0 < p.looking + (p.owed_notices + length p.running))
      × (0 < p.sleeping → length p.tasks ≤ p.looking + p.owed_notices)
Works-progress n p w = (
  Works-some_one n p w,
  λ l. elim (Works-IsThreadPool n p w).awake [ inl z ↦ absurd (omega arith) | inr a ↦ a ],
)

-- The destructor's `join` waits for no worker that sleeps for ever: in a pool that stops, once
-- `notify_all` is made, no worker is asleep and, where no task waits, each one looks, runs a task
-- or has returned.
pub Works-stops :
    (n : ℕ) (p : ThreadPool)
    → Works n p
    → p.stopping ≡ true
    → p.owes_all ≡ false
    → (p.sleeping ≡ 0) × (p.looking + (p.finished + length p.running) ≡ n)
Works-stops n p w stopped made =
    let i = Works-IsThreadPool n p w in
    let awake : p.sleeping ≡ 0 = elim i.woken [
      | inl z ↦ absurd (cc (sym z ∙ stopped))
      | inr (inl z) ↦ absurd (cc (sym z ∙ made))
      | inr (inr z) ↦ z
    ] in
    (awake, omega (arith, i.workers))
