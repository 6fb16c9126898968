-- ===== src/Network/Strand/Settled.antt =====
-- What the lock of a connection guards, between two steps.

use cpp_db.Prelude.{
  All, All-append, Bool, List, Text, [], ap, append-nil, append_assoc, arith, false, get_elem?,
  if◌then◌else◌, length, length-append, not, refl, some, some_inj, suc, sym, true, zero, ℕ, ◌&&◌,
  ◌++◌, ◌+◌, ◌<◌, ◌||◌, ◌∙◌, ◌∷◌, ◌≡◌, ◌≤◌,
}
use cpp_db.Network.Strand.{
  Connection, StrandTask, at_queue, end_task, executing, max_line_bytes, max_pending_queries,
  no_bytes, push_line,
}
use cpp_db.Structures.HashMap.Counts.{bit}

-- The queries that tasks have taken and not answered.

abbrev pub in_flight : List StrandTask → List Text
in_flight [] = []
in_flight (at_queue ∷ ts) = in_flight ts
in_flight (executing q ∷ ts) = q ∷ in_flight ts

in_flight-append : (ts us : List StrandTask) → in_flight (ts ++ us) ≡ in_flight ts ++ in_flight us
in_flight-append [] us = refl
in_flight-append (at_queue ∷ ts) us = in_flight-append ts us
in_flight-append (executing q ∷ ts) us = ap (◌∷◌ q) (in_flight-append ts us)

-- A line that is queued: not empty, and not over the limit.
abbrev pub IsQuery : Text → Type 0
IsQuery q = (length q ≤ max_line_bytes) × (no_bytes q ≡ false)

-- `busy` stands for the one task, or for the dispatch that the event loop owes; the descriptor is
-- closed once, when the connection is dropped and no task is left; the queue keeps its limits; and
-- as long as each reply could be written, the lines are answered in the order they were queued in.
pub record Settled (c : Connection) (ts : List StrandTask) (owed : Bool) : Type 0 where
  pub one_task : length ts + bit owed ≡ bit c.busy
  pub closed_once : c.closes ≡ bit (c.closed && not c.busy)
  pub few : length c.pending ≤ max_pending_queries
  pub lines : All IsQuery c.pending
  pub order : c.write_failed ≡ false → c.answered ++ (in_flight ts ++ c.pending) ≡ c.queued

inbox-Settled :
    (c : Connection) (ts : List StrandTask) (owed : Bool) (inbox : Text)
    → Settled c ts owed
    → Settled (record c { inbox = inbox }) ts owed
inbox-Settled c ts owed inbox s = record {
  one_task = s.one_task;
  closed_once = s.closed_once;
  few = s.few;
  lines = s.lines;
  order = s.order;
}

pub read-Settled :
    (c : Connection) (ts : List StrandTask) (owed : Bool) (inbox : Text)
    → Settled c ts owed
    → Settled (record c { inbox = inbox }) ts owed
read-Settled c ts owed inbox s = inbox-Settled c ts owed inbox s

-- `dispatch`
pub dispatch-Settled :
    (c : Connection) (ts : List StrandTask)
    → Settled c ts true
    → Settled c (ts ++ (at_queue ∷ [])) false
dispatch-Settled c ts s = record {
  one_task = omega (arith, s.one_task, length-append ts (at_queue ∷ []));
  closed_once = s.closed_once;
  few = s.few;
  lines = s.lines;
  order = λ h.
      ap (λ x. c.answered ++ (x ++ c.pending)) (in_flight-append ts (at_queue ∷ []) ∙ append-nil _)
      ∙ s.order h;
}

owed_after : (n : ℕ) (owed busy : Bool) → n + bit owed ≡ bit busy → n + bit (owed || not busy) ≡ 1
owed_after n true true h = omega arith
owed_after n false true h = omega arith
owed_after n true false h = absurd (omega arith)
owed_after n false false h = omega arith

not_closed : (closed busy : Bool) → closed ≡ false → bit (closed && not busy) ≡ 0
not_closed true busy h = cc
not_closed false busy h = refl

pub push_line-Settled :
    (c : Connection) (ts : List StrandTask) (owed : Bool) (line : Text)
    → Settled c ts owed
    → c.closed ≡ false
    → length c.pending < max_pending_queries
    → IsQuery line
    → Settled (push_line c line) ts (owed || not c.busy)
unfolding push_line
push_line-Settled c ts owed line s alive room q = record {
  one_task = owed_after (length ts) owed c.busy s.one_task;
  closed_once =
      s.closed_once ∙ (not_closed c.closed c.busy alive ∙ sym (not_closed c.closed true alive));
  few = omega (arith, length-append c.pending (line ∷ []));
  lines = All-append IsQuery c.pending (line ∷ []) s.lines (q, tt);
  order = λ h.
      ap (λ x. c.answered ++ x) (sym (append_assoc (in_flight ts) c.pending (line ∷ [])))
      ∙ (sym (append_assoc c.answered (in_flight ts ++ c.pending) (line ∷ []))
          ∙ ap (λ x. x ++ (line ∷ [])) (s.order h));
}

-- A task is the only one, and nothing is owed.
pub only_task :
    (c : Connection) (ts : List StrandTask) (owed : Bool) (i : ℕ) (t : StrandTask)
    → Settled c ts owed
    → get_elem? ts i ≡ some t
    → (ts ≡ t ∷ []) × (i ≡ 0) × (owed ≡ false) × (c.busy ≡ true)
only_task c ts owed i t s at = sole ts owed c.busy i s.one_task at
  where
    sole :
        (ts : List StrandTask) (owed busy : Bool) (i : ℕ)
        → length ts + bit owed ≡ bit busy
        → get_elem? ts i ≡ some t
        → (ts ≡ t ∷ []) × (i ≡ 0) × (owed ≡ false) × (busy ≡ true)
    sole [] owed busy i h g = cc
    sole (u ∷ []) true true i h g = absurd (omega arith)
    sole (u ∷ []) owed false i h g = absurd (omega arith)
    sole (u ∷ []) false true zero h g = (ap (λ x. x ∷ []) (some_inj u t g), refl, refl, refl)
    sole (u ∷ []) false true (suc i) h g = cc
    sole (u ∷ (w ∷ ts)) owed true i h g = absurd (omega arith)
    sole (u ∷ (w ∷ ts)) owed false i h g = absurd (omega arith)

pub take-Settled :
    (c : Connection) (q : Text) (qs : List Text)
    → Settled c (at_queue ∷ []) false
    → c.pending ≡ q ∷ qs
    → Settled (record c { pending = qs }) (executing q ∷ []) false
take-Settled c q qs s e =
    let few : length (q ∷ qs) ≤ max_pending_queries = rw e at s.few in
    let lines : All IsQuery (q ∷ qs) = rw e at s.lines in
    record {
      one_task = s.one_task;
      closed_once = s.closed_once;
      few = omega arith;
      lines = lines.1;
      order = λ h. ap (λ x. c.answered ++ x) (sym e) ∙ s.order h;
    }

ended :
    (closes : ℕ) (closed busy : Bool)
    → closes ≡ bit (closed && not busy)
    → busy ≡ true
    → (if closed then closes + 1 else closes) ≡ bit (closed && true)
ended closes true true h b = omega arith
ended closes false true h b = h
ended closes closed false h b = cc

-- The task finds the queue empty.
pub end-Settled :
    (c : Connection)
    → Settled c (at_queue ∷ []) false
    → c.busy ≡ true
    → c.pending ≡ []
    → Settled (end_task c) [] false
unfolding end_task
end-Settled c s b e = record {
  one_task = omega arith;
  closed_once = ended c.closes c.closed c.busy s.closed_once b;
  few = s.few;
  lines = s.lines;
  order = s.order;
}

pub reply-Settled :
    (c : Connection) (q : Text)
    → Settled c (executing q ∷ []) false
    → Settled (record c { answered = c.answered ++ (q ∷ []) }) (at_queue ∷ []) false
reply-Settled c q s = record {
  one_task = s.one_task;
  closed_once = s.closed_once;
  few = s.few;
  lines = s.lines;
  order = λ h. append_assoc c.answered (q ∷ []) c.pending ∙ s.order h;
}

pub lost-Settled :
    (c : Connection) (q : Text)
    → Settled c (executing q ∷ []) false
    → c.busy ≡ true
    → Settled (end_task (record c { pending = []; write_failed = true })) [] false
unfolding end_task
lost-Settled c q s b = record {
  one_task = omega arith;
  closed_once = ended c.closes c.closed c.busy s.closed_once b;
  few = omega arith;
  lines = tt;
  order = λ h. cc;
}
