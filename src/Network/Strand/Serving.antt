-- ===== src/Network/Strand/Serving.antt =====
-- What holds of a connection after any steps of the event loop and of the tasks.

use cpp_db.Prelude.{
  All, Bool, Text, [], ap, arith, false, length, not, refl, true, ◌&&◌, ◌++◌, ◌+◌, ◌∙◌, ◌≡◌, ◌≤◌,
}
use cpp_db.Network.Strand.{
  LoopPhase, Serves, Strand, dropping, forgotten, max_line_bytes, polling, splitting,
}
use cpp_db.Network.Strand.Settled.{IsQuery, in_flight}
use cpp_db.Network.Strand.Steps.{Serves-IsStrand, is_forgotten, owes}
use cpp_db.Structures.HashMap.Counts.{bit}

-- After any steps of the event loop and of the tasks, as long as each reply could be written: the
-- queries that are answered, then the one that is executing, then those that wait, are the lines
-- that were queued, in their order, each once.
pub Serves-in_order :
    (s : Strand)
    → Serves s
    → s.connection.write_failed ≡ false
    → s.connection.answered ++ (in_flight s.tasks ++ s.connection.pending) ≡ s.connection.queued
Serves-in_order s serves ok_so_far = (Serves-IsStrand s serves).0.order ok_so_far

-- After any steps, at most one task executes queries of the connection, and none where the event
-- loop owes the dispatch of one; the descriptor is closed once at most, and not before the task has
-- ended; and it has been closed exactly where the connection is dropped and not busy.
pub Serves-one_task :
    (s : Strand)
    → Serves s
    → (length s.tasks + bit (owes s.phase) ≤ 1)
      × (s.connection.closes + length s.tasks ≤ 1)
      × (s.connection.closes ≡ bit (is_forgotten s.phase && not s.connection.busy))
Serves-one_task s serves =
    let (i, closed, fits) = Serves-IsStrand s serves in
    let le = closed_or_busy s.connection.closed s.connection.busy in
    (
      omega (arith, i.one_task, le),
      omega (arith, i.one_task, i.closed_once, le),
      i.closed_once ∙ ap (λ b. bit (b && not s.connection.busy)) closed,
    )
  where
    closed_or_busy : (closed busy : Bool) → bit (closed && not busy) + bit busy ≤ 1
    closed_or_busy true true = omega arith
    closed_or_busy true false = omega arith
    closed_or_busy false true = omega arith
    closed_or_busy false false = omega arith

-- The bytes that are kept while the event loop polls the connection.
abbrev pub kept_bytes : LoopPhase → Text → Text
kept_bytes polling inbox = inbox
kept_bytes (splitting should_dispatch peer_closed) inbox = []
kept_bytes dropping inbox = []
kept_bytes forgotten inbox = []

-- After any steps, at most 1024 queries wait, each of them of 1 to 65536 bytes; and while the event
-- loop polls the connection, at most 65536 bytes are kept that are no line yet.
pub Serves-bounded :
    (s : Strand)
    → Serves s
    → (length s.connection.pending ≤ 1024)
      × All IsQuery s.connection.pending
      × (length (kept_bytes s.phase s.connection.inbox) ≤ 65536)
Serves-bounded s serves =
    let (i, closed, fits) = Serves-IsStrand s serves in
    (i.few, i.lines, kept s.phase s.connection.inbox fits)
  where
    kept :
        (p : LoopPhase) (inbox : Text)
        → (p ≡ polling → length inbox ≤ max_line_bytes)
        → length (kept_bytes p inbox) ≤ 65536
    kept polling inbox f = f refl
    kept (splitting d c) inbox f = omega arith
    kept dropping inbox f = omega arith
    kept forgotten inbox f = omega arith
