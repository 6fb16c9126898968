-- ===== src/Tests/Network.antt =====
-- A connection that sends two lines, the first of them with a carriage return.

use cpp_db.Prelude.{
  All, List, [], codes, false, length, not, refl, true, ◌&&◌, ◌++◌, ◌+◌, ◌∷◌, ◌≡◌, ◌≤◌,
}
use cpp_db.Network.Strand.{
  ReadResult, Serves, Strand, accepted_connection, bytes_read, check_line, goes_on, queue_line,
  read_all, read_bytes, read_interrupted, reads, replies, reply_written, split_line, split_round,
  splits, starts, strip_return, take_query, takes, would_block,
}
use cpp_db.Network.Strand.Serving.{Serves-bounded, Serves-in_order, Serves-one_task, kept_bytes}
use cpp_db.Network.Strand.Settled.{IsQuery, in_flight}
use cpp_db.Network.Strand.Steps.{is_forgotten, owes}
use cpp_db.Structures.HashMap.Counts.{bit}

abbrev sent_lines : List ReadResult
sent_lines =
    bytes_read (codes "A\r\nB") ∷ read_interrupted ∷ bytes_read (codes "\nrest") ∷ would_block ∷ []

abbrev after_read : Strand
after_read = read_bytes accepted_connection sent_lines

abbrev first_split : Strand
first_split = split_round after_read false false

abbrev both_split : Strand
both_split = split_round first_split true false

abbrev dispatched : Strand
dispatched = split_round both_split true false

abbrev one_taken : Strand
one_taken = take_query dispatched 0 dispatched.connection.pending

abbrev one_answered : Strand
one_answered = reply_written one_taken 0 (codes "A")

one_answered-Serves : Serves one_answered
unfolding read_bytes read_all split_round check_line split_line strip_return take_query
    reply_written queue_line
one_answered-Serves =
    goes_on _ _
      (goes_on _ _
        (goes_on _ _
          (goes_on _ _
            (goes_on _ _ (goes_on _ _ starts (reads sent_lines refl)) (splits false false refl))
            (splits true false refl))
          (splits true false refl))
        (takes 0 refl))
      (replies 0 (codes "A") refl)

waits : one_answered.connection.pending ≡ codes "B" ∷ []
unfolding read_bytes read_all split_round check_line split_line strip_return take_query
    reply_written queue_line
waits = refl

Serves-in_order_example :
    one_answered.connection.answered
      ++ (in_flight one_answered.tasks ++ one_answered.connection.pending)
    ≡ one_answered.connection.queued
unfolding read_bytes read_all split_round check_line split_line strip_return take_query
    reply_written queue_line
Serves-in_order_example = Serves-in_order one_answered one_answered-Serves refl

Serves-one_task_example :
    (length one_answered.tasks + bit (owes one_answered.phase) ≤ 1)
    × (one_answered.connection.closes + length one_answered.tasks ≤ 1)
    × (one_answered.connection.closes
        ≡ bit (is_forgotten one_answered.phase && not one_answered.connection.busy))
Serves-one_task_example = Serves-one_task one_answered one_answered-Serves

Serves-bounded_example :
    (length one_answered.connection.pending ≤ 1024)
    × All IsQuery one_answered.connection.pending
    × (length (kept_bytes one_answered.phase one_answered.connection.inbox) ≤ 65536)
Serves-bounded_example = Serves-bounded one_answered one_answered-Serves
