-- ===== src/Network/Strand/Steps.antt =====
-- What each step of the event loop and of a task keeps of a connection.

use cpp_db.Prelude.{
  Bool, Bool-cases, List, Option, Text, [], ap, arith, erase_at, false, get_elem?, if◌then◌else◌,
  inl, inr, leb, leb-false_lt, length, ltb, ltb-false_le, none, not, refl, set, some, subst, sym,
  true, ℕ, ◌&&◌, ◌++◌, ◌+◌, ◌||◌, ◌∙◌, ◌∷◌, ◌≡◌, ◌≤◌,
}
use cpp_db.Network.Strand.{
  LoopPhase, Serves, Strand, StrandStep, at_queue, check_line, drop_connection, dropping, drops,
  end_task, executing, finish_read, forgotten, goes_on, loses, max_line_bytes, max_pending_queries,
  no_bytes, polling, push_line, queue_line, read_all, read_bytes, reads, replies, reply_lost,
  reply_written, split_line, split_round, split_with, splits, splitting, starts, strip_return,
  take_query, takes,
}
use cpp_db.Network.Strand.Settled.{
  IsQuery, Settled, dispatch-Settled, end-Settled, lost-Settled, only_task, push_line-Settled,
  read-Settled, reply-Settled, take-Settled,
}
use cpp_db.Structures.HashMap.Counts.{bit}

-- The dispatch that the event loop owes.
abbrev pub owes : LoopPhase → Bool
owes polling = false
owes (splitting should_dispatch peer_closed) = should_dispatch
owes dropping = false
owes forgotten = false

abbrev pub is_forgotten : LoopPhase → Bool
is_forgotten polling = false
is_forgotten (splitting should_dispatch peer_closed) = false
is_forgotten dropping = false
is_forgotten forgotten = true

abbrev pub IsStrand : Strand → Type 0
IsStrand s =
    Settled s.connection s.tasks (owes s.phase)
    × (s.connection.closed ≡ is_forgotten s.phase)
    × (s.phase ≡ polling → length s.connection.inbox ≤ max_line_bytes)

finish_read-IsStrand :
    (s : Strand) (should_dispatch drop_it : Bool)
    → Settled s.connection s.tasks should_dispatch
    → s.connection.closed ≡ false
    → (drop_it ≡ false → length s.connection.inbox ≤ max_line_bytes)
    → IsStrand (finish_read s should_dispatch drop_it)
unfolding finish_read
finish_read-IsStrand s true true i alive fits =
    (dispatch-Settled s.connection s.tasks i, alive, λ h. cc)
finish_read-IsStrand s true false i alive fits =
    (dispatch-Settled s.connection s.tasks i, alive, λ h. fits refl)
finish_read-IsStrand s false true i alive fits = (i, alive, λ h. cc)
finish_read-IsStrand s false false i alive fits = (i, alive, λ h. fits refl)

queue_line-IsStrand :
    (s : Strand) (should_dispatch peer_closed : Bool) (line : Text)
    → Settled s.connection s.tasks should_dispatch
    → s.connection.closed ≡ false
    → IsQuery line
    → IsStrand (queue_line s should_dispatch peer_closed line)
unfolding queue_line push_line
queue_line-IsStrand s should_dispatch peer_closed line i alive q =
    elim (Bool-cases (leb max_pending_queries (length s.connection.pending))) [
      | inl full ↦ rw full (finish_read-IsStrand s should_dispatch true i alive (λ h. cc))
      | inr room ↦ rw room (
        push_line-Settled s.connection s.tasks should_dispatch line i alive (leb-false_lt _ _ room)
            q,
        alive,
        λ h. cc,
      )
    ]

-- A round leaves the phase alone where it skips an empty line.
check_line-IsStrand :
    (s : Strand) (should_dispatch peer_closed : Bool) (line : Text)
    → s.phase ≡ splitting should_dispatch peer_closed
    → Settled s.connection s.tasks should_dispatch
    → s.connection.closed ≡ false
    → IsStrand (check_line s should_dispatch peer_closed line)
unfolding check_line
check_line-IsStrand s should_dispatch peer_closed line e i alive =
    elim (Bool-cases (no_bytes line)) [
      | inl none_there ↦ rw none_there (
        subst (λ x. Settled s.connection s.tasks (owes x)) (sym e) i,
        alive ∙ ap is_forgotten (sym e),
        λ h. cc,
      )
      | inr some_there ↦ rw some_there (elim (Bool-cases (ltb max_line_bytes (length line))) [
        | inl long ↦ rw long (finish_read-IsStrand s should_dispatch true i alive (λ h. cc))
        | inr short ↦ rw short (
            queue_line-IsStrand s should_dispatch peer_closed line i alive
              (ltb-false_le _ _ short, some_there))
      ])
    ]

split_with-IsStrand :
    (s : Strand) (should_dispatch peer_closed : Bool) (o : Option (Text × Text))
    → s.phase ≡ splitting should_dispatch peer_closed
    → IsStrand s
    → IsStrand (split_with s should_dispatch peer_closed o)
unfolding split_with
split_with-IsStrand s should_dispatch peer_closed none e i =
    finish_read-IsStrand s should_dispatch
      (peer_closed || ltb max_line_bytes (length s.connection.inbox))
      (subst (λ x. Settled s.connection s.tasks (owes x)) e i.0) (i.1 ∙ ap is_forgotten e)
      (λ h. ltb-false_le _ _ (right_false peer_closed _ h))
  where
    right_false : (a b : Bool) → (a || b) ≡ false → b ≡ false
    right_false true b h = cc
    right_false false b h = h
split_with-IsStrand s should_dispatch peer_closed (some (line, rest)) e i =
    check_line-IsStrand (record s { connection = record s.connection { inbox = rest } })
      should_dispatch peer_closed (strip_return line) e
      (read-Settled s.connection s.tasks should_dispatch rest
        (subst (λ x. Settled s.connection s.tasks (owes x)) e i.0))
      (i.1 ∙ ap is_forgotten e)

drop_connection-IsStrand :
    (s : Strand) → s.phase ≡ dropping → IsStrand s → IsStrand (drop_connection s)
unfolding drop_connection
drop_connection-IsStrand s e i =
    let old = subst (λ x. Settled s.connection s.tasks (owes x)) e i.0 in
    (
      record {
        one_task = old.one_task;
        closed_once =
            closes_now s.connection.closes s.connection.closed s.connection.busy old.closed_once
              (i.1 ∙ ap is_forgotten e);
        few = old.few;
        lines = old.lines;
        order = old.order;
      },
      refl,
      λ h. cc,
    )
  where
    closes_now :
        (closes : ℕ) (closed busy : Bool)
        → closes ≡ bit (closed && not busy)
        → closed ≡ false
        → (if busy then closes else closes + 1) ≡ bit (true && not busy)
    closes_now closes true busy h c = cc
    closes_now closes false true h c = h
    closes_now closes false false h c = omega arith

take_query-IsStrand :
    (s : Strand) (i : ℕ) (qs : List Text)
    → s.connection.pending ≡ qs
    → get_elem? s.tasks i ≡ some at_queue
    → IsStrand s
    → IsStrand (take_query s i qs)
unfolding take_query end_task
take_query-IsStrand s i [] p at (good, closed, fits) =
    let (ts, z, owed, busy) = only_task s.connection s.tasks (owes s.phase) i at_queue good at in
    let old = rw (ts, owed) at good in
    (
      subst (λ x. Settled (end_task s.connection) x (owes s.phase))
          (sym (ap (λ x. erase_at x i) ts ∙ ap (λ n. erase_at (at_queue ∷ []) n) z))
          (subst (λ b. Settled (end_task s.connection) [] b) (sym owed)
            (end-Settled s.connection old busy p)),
      closed,
      fits,
    )
take_query-IsStrand s i (q ∷ qs) p at (good, closed, fits) =
    let (ts, z, owed, busy) = only_task s.connection s.tasks (owes s.phase) i at_queue good at in
    let old = rw (ts, owed) at good in
    (
      subst (λ x. Settled (record s.connection { pending = qs }) x (owes s.phase))
          (sym
            (ap (λ x. set x i (executing q)) ts ∙ ap (λ n. set (at_queue ∷ []) n (executing q)) z))
          (subst (λ b. Settled (record s.connection { pending = qs }) (executing q ∷ []) b)
            (sym owed) (take-Settled s.connection q qs old p)),
      closed,
      fits,
    )

reply_written-IsStrand :
    (s : Strand) (i : ℕ) (q : Text)
    → get_elem? s.tasks i ≡ some (executing q)
    → IsStrand s
    → IsStrand (reply_written s i q)
unfolding reply_written
reply_written-IsStrand s i q at (good, closed, fits) =
    let (ts, z, owed, busy) =
      only_task s.connection s.tasks (owes s.phase) i (executing q) good at in
    let old = rw (ts, owed) at good in
    let c = record s.connection { answered = s.connection.answered ++ (q ∷ []) } in
    (
      subst (λ x. Settled c x (owes s.phase))
          (sym (ap (λ x. set x i at_queue) ts ∙ ap (λ n. set (executing q ∷ []) n at_queue) z))
          (subst (λ b. Settled c (at_queue ∷ []) b) (sym owed) (reply-Settled s.connection q old)),
      closed,
      fits,
    )

reply_lost-IsStrand :
    (s : Strand) (i : ℕ) (q : Text)
    → get_elem? s.tasks i ≡ some (executing q)
    → IsStrand s
    → IsStrand (reply_lost s i)
unfolding reply_lost end_task
reply_lost-IsStrand s i q at (good, closed, fits) =
    let (ts, z, owed, busy) =
      only_task s.connection s.tasks (owes s.phase) i (executing q) good at in
    let old = rw (ts, owed) at good in
    let c = end_task (record s.connection { pending = []; write_failed = true }) in
    (
      subst (λ x. Settled c x (owes s.phase))
          (sym (ap (λ x. erase_at x i) ts ∙ ap (λ n. erase_at (executing q ∷ []) n) z))
          (subst (λ b. Settled c [] b) (sym owed) (lost-Settled s.connection q old busy)),
      closed,
      fits,
    )

StrandStep-IsStrand : (s s' : Strand) → IsStrand s → StrandStep s s' → IsStrand s'
unfolding read_bytes split_round
StrandStep-IsStrand s _ i (reads results e) = (
  read-Settled s.connection s.tasks false (read_all s.connection.inbox results).0
      (subst (λ x. Settled s.connection s.tasks (owes x)) e i.0),
  i.1 ∙ ap is_forgotten e,
  λ h. cc,
)
StrandStep-IsStrand s _ i (splits d p e) =
    split_with-IsStrand s d p (split_line s.connection.inbox) e i
StrandStep-IsStrand s _ i (drops e) = drop_connection-IsStrand s e i
StrandStep-IsStrand s _ i (takes n at) = take_query-IsStrand s n s.connection.pending refl at i
StrandStep-IsStrand s _ i (replies n q at) = reply_written-IsStrand s n q at i
StrandStep-IsStrand s _ i (loses n q at) = reply_lost-IsStrand s n q at i

pub Serves-IsStrand : (s : Strand) → Serves s → IsStrand s
Serves-IsStrand _ starts = (
  record {
    one_task = omega arith;
    closed_once = refl;
    few = omega arith;
    lines = tt;
    order = λ h. refl;
  },
  refl,
  λ h. omega arith,
)
Serves-IsStrand _ (goes_on s s' serves step) =
    StrandStep-IsStrand s s' (Serves-IsStrand s serves) step
