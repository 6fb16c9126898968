-- ===== src/Network/Strand.antt =====
-- src/network/tcp_server.cpp and include/network/TCPServer.hpp, for one connection: the bytes that
-- the event loop reads, the lines that it queues, and the tasks of the pool that execute them. What
-- `::read` and `::send` return is given with a step. A step ends where the code takes or leaves the
-- lock of the connection, so that the steps of the event loop and of the tasks interleave.

use cpp_db.Prelude.{
  Bool, List, Option, Text, [], erase_at, false, get_elem?, if◌then◌else◌, leb, length, ltb, none,
  not, set, some, true, ℕ, ◌*◌, ◌++◌, ◌+◌, ◌==◌, ◌||◌, ◌∷◌, ◌≡◌,
}
-- `kMaxLineBytes`, `kMaxPendingQueries`
pub mod Settled
pub mod Steps
pub mod Serving

abbrev pub max_line_bytes : ℕ
max_line_bytes = 64 * 1024

abbrev pub max_pending_queries : ℕ
max_pending_queries = 1024

-- `Connection`, with what has been done for it: the lines that were queued, the queries whose reply
-- was written, the calls of `::close`, and whether a reply could not be written.
pub record Connection : Type 0 where
  pub inbox : Text
  pub pending : List Text
  pub busy : Bool
  pub closed : Bool
  pub queued : List Text
  pub answered : List Text
  pub closes : ℕ
  pub write_failed : Bool

-- Where the event loop is with the connection. `splitting` has `shouldDispatch` and `peerClosed`.
pub data LoopPhase : Type 0 where
  polling : LoopPhase
  splitting : Bool → Bool → LoopPhase
  dropping : LoopPhase
  forgotten : LoopPhase

-- A task that `dispatch` submitted: before the lock of its loop, or with a query that it took.
pub data StrandTask : Type 0 where
  at_queue : StrandTask
  executing : Text → StrandTask

pub record Strand : Type 0 where
  pub connection : Connection
  pub phase : LoopPhase
  pub tasks : List StrandTask

-- After `acceptClients`.
abbrev pub accepted_connection : Strand
accepted_connection = record {
  connection = record {
    inbox = [];
    pending = [];
    busy = false;
    closed = false;
    queued = [];
    answered = [];
    closes = 0;
    write_failed = false;
  };
  phase = polling;
  tasks = [];
}

-- `inbox.find('\n')`, with what stands before and behind it.
unfoldable pub split_line : Text → Option (Text × Text)
split_line [] = none
split_line (c ∷ cs) = if c == b'\n' then some ([], cs) else cons_line c (split_line cs)
  where
    cons_line : ℕ → Option (Text × Text) → Option (Text × Text)
    cons_line c none = none
    cons_line c (some (line, rest)) = some (c ∷ line, rest)

-- A carriage return at the end of a line goes.
unfoldable pub strip_return : Text → Text
strip_return [] = []
strip_return (c ∷ []) = if c == b'\r' then [] else c ∷ []
strip_return (c ∷ (d ∷ cs)) = c ∷ strip_return (d ∷ cs)

unfoldable pub no_bytes : Text → Bool
no_bytes [] = true
no_bytes (c ∷ cs) = false

-- What `::read` returns.
pub data ReadResult : Type 0 where
  bytes_read : Text → ReadResult
  end_of_file : ReadResult
  would_block : ReadResult
  read_interrupted : ReadResult
  read_failed : ReadResult

-- The loop over `::read`: the inbox, and `peerClosed`.
unfoldable pub read_all : Text → List ReadResult → Text × Bool
read_all inbox [] = (inbox, false)
read_all inbox (bytes_read bytes ∷ rs) = read_all (inbox ++ bytes) rs
read_all inbox (end_of_file ∷ rs) = (inbox, true)
read_all inbox (would_block ∷ rs) = (inbox, false)
read_all inbox (read_interrupted ∷ rs) = read_all inbox rs
read_all inbox (read_failed ∷ rs) = (inbox, true)

unfoldable pub read_bytes : Strand → List ReadResult → Strand
unfolding read_all
read_bytes s results =
    let (inbox, peer_closed) = read_all s.connection.inbox results in
    record s {
      connection = record s.connection { inbox = inbox };
      phase = splitting false peer_closed;
    }

-- The end of `handleReadable`: the dispatch, and whether to drop the connection.
unfoldable pub finish_read : Strand → Bool → Bool → Strand
finish_read s should_dispatch drop_it = record s {
  phase = if drop_it then dropping else polling;
  tasks = if should_dispatch then s.tasks ++ (at_queue ∷ []) else s.tasks;
}

-- `conn->pending.push_back`, under the lock.
unfoldable pub push_line : Connection → Text → Connection
push_line c line = record c {
  pending = c.pending ++ (line ∷ []);
  queued = c.queued ++ (line ∷ []);
  busy = true;
}

unfoldable pub queue_line : Strand → Bool → Bool → Text → Strand
unfolding push_line finish_read
queue_line s should_dispatch peer_closed line =
    if leb max_pending_queries (length s.connection.pending)
    then finish_read s should_dispatch true
    else record s {
      connection = push_line s.connection line;
      phase = splitting (should_dispatch || not s.connection.busy) peer_closed;
    }

-- A line behind its carriage return.
unfoldable pub check_line : Strand → Bool → Bool → Text → Strand
unfolding queue_line no_bytes
check_line s should_dispatch peer_closed line =
    if no_bytes line
    then s
    else if ltb max_line_bytes (length line)
    then finish_read s should_dispatch true
    else queue_line s should_dispatch peer_closed line

unfoldable pub split_with : Strand → Bool → Bool → Option (Text × Text) → Strand
unfolding check_line finish_read
split_with s should_dispatch peer_closed none =
    finish_read s should_dispatch (peer_closed || ltb max_line_bytes (length s.connection.inbox))
split_with s should_dispatch peer_closed (some (line, rest)) =
    check_line (record s { connection = record s.connection { inbox = rest } }) should_dispatch
      peer_closed (strip_return line)

-- One round of the loop over the lines, or what comes behind it.
unfoldable pub split_round : Strand → Bool → Bool → Strand
unfolding split_with
split_round s should_dispatch peer_closed =
    split_with s should_dispatch peer_closed (split_line s.connection.inbox)

-- `dropConnection`, under the lock.
unfoldable pub drop_connection : Strand → Strand
drop_connection s = record s {
  connection = record s.connection {
    closed = true;
    closes = if s.connection.busy then s.connection.closes else s.connection.closes + 1;
  };
  phase = forgotten;
}

-- A task that ends: `busy` is false again, and the deferred close.
unfoldable pub end_task : Connection → Connection
end_task c = record c { busy = false; closes = if c.closed then c.closes + 1 else c.closes }

-- The task at `i` before the lock of its loop.
unfoldable pub take_query : Strand → ℕ → List Text → Strand
unfolding end_task
take_query s i [] = record s { connection = end_task s.connection; tasks = erase_at s.tasks i }
take_query s i (q ∷ qs) = record s {
  connection = record s.connection { pending = qs };
  tasks = set s.tasks i (executing q);
}

-- The reply to the query of the task at `i` is written.
unfoldable pub reply_written : Strand → ℕ → Text → Strand
reply_written s i q = record s {
  connection = record s.connection { answered = s.connection.answered ++ (q ∷ []) };
  tasks = set s.tasks i at_queue;
}

-- The reply cannot be written.
unfoldable pub reply_lost : Strand → ℕ → Strand
unfolding end_task
reply_lost s i = record s {
  connection = end_task (record s.connection { pending = []; write_failed = true });
  tasks = erase_at s.tasks i;
}

-- What `::send` returns, and `::poll` where the socket is full.
pub data SendResult : Type 0 where
  bytes_sent : ℕ → SendResult
  socket_full : Bool → SendResult
  interrupted : SendResult
  peer_gone : SendResult

-- `writeAll` from `sent` bytes of `size`; none where more results are needed.
unfoldable pub write_all : ℕ → ℕ → List SendResult → Option Bool
write_all sent size [] = if ltb sent size then none else some true
write_all sent size (bytes_sent n ∷ rs) =
    let more = write_all (sent + n) size rs in if ltb sent size then more else some true
write_all sent size (socket_full ready ∷ rs) =
    let more = write_all sent size rs in
    if ltb sent size then (if ready then more else some false) else some true
write_all sent size (interrupted ∷ rs) =
    let more = write_all sent size rs in if ltb sent size then more else some true
write_all sent size (peer_gone ∷ rs) = if ltb sent size then some false else some true

-- The steps of the event loop and of the tasks.
pub data StrandStep (s : Strand) : Strand → Type 0 where
  reads : (results : List ReadResult) → s.phase ≡ polling → StrandStep s (read_bytes s results)
  splits :
      (should_dispatch peer_closed : Bool)
      → s.phase ≡ splitting should_dispatch peer_closed
      → StrandStep s (split_round s should_dispatch peer_closed)
  drops : s.phase ≡ dropping → StrandStep s (drop_connection s)
  takes :
      (i : ℕ)
      → get_elem? s.tasks i ≡ some at_queue
      → StrandStep s (take_query s i s.connection.pending)
  replies :
      (i : ℕ) (q : Text)
      → get_elem? s.tasks i ≡ some (executing q)
      → StrandStep s (reply_written s i q)
  loses :
      (i : ℕ) (q : Text) → get_elem? s.tasks i ≡ some (executing q) → StrandStep s (reply_lost s i)

pub data Serves : Strand → Type 0 where
  starts : Serves accepted_connection
  goes_on : (s s' : Strand) → Serves s → StrandStep s s' → Serves s'
