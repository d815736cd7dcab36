-- ===== src/Aio/Examples.antt =====
-- A copy of five bytes through a buffer of two, between streams that are always ready.
use plexy.Prelude.{
  ℕ, ◌+◌, ◌≡◌, refl, List, [], ◌∷◌, ◌++◌, arith, take, drop, length, length-take, length-drop, some,
  add64,
}
use plexy.Aio.Streams.{Streams, ready, pending, io_ok}
use plexy.Aio.Buffer.{Copy, new_copy_buffer, zeros, poll_copy}
use plexy.Aio.Faithful.{IsFaithful, Keeps}
use plexy.Aio.Faithful.Loop.{poll_copy-Keeps}
use plexy.Aio.Ends.{IsBounded, Returns}
use plexy.Aio.Ends.Rounds.{poll_copy-Returns}
use plexy.Aio.Transfer.{Direction, running, done, CopyBidirectional, poll, transfer_one_direction}
use plexy.Aio.Delivered.{BothTransferred, poll-BothTransferred}

record Pipe : Type 0 where
  todo : List ℕ
  delivered : List ℕ
  taken : List ℕ

take-length : (bs : List ℕ) → take (length bs) bs ≡ bs
take-length [] = refl
take-length (b ∷ bs) = ground (arith, take-length bs)

abbrev pipe : Streams
pipe = record {
  Env = Pipe;
  poll_finish = λ e. (e, pending);
  poll_read = λ n e. (
    record { todo = drop n e.todo; delivered = e.delivered ++ take n e.todo; taken = e.taken },
    ready (io_ok (take n e.todo)),
  );
  poll_write = λ bs e. (
    record { todo = e.todo; delivered = e.delivered; taken = e.taken ++ bs },
    ready (io_ok (length bs)),
  );
  poll_flush = λ e. (e, ready (io_ok tt));
  poll_shutdown = λ e. (e, ready (io_ok tt));
  received = λ e. e.delivered;
  sent = λ e. e.taken;
  read_fits = λ n e. omega (arith, length-take n e.todo);
  read_received = λ n e. refl;
  read_sent = λ n e. refl;
  write_fits = λ bs e. omega arith;
  write_sent = λ bs e. rw (take-length bs) refl;
  write_received = λ bs e. refl;
  flush_received = λ e. refl;
  flush_sent = λ e. refl;
  finish_received = λ e. refl;
  finish_sent = λ e. refl;
  shutdown_received = λ e. refl;
  shutdown_sent = λ e. refl;
}

abbrev five : Copy pipe
five = record {
  buffer = new_copy_buffer 2;
  env = record { todo = 1 ∷ 2 ∷ 3 ∷ 4 ∷ 5 ∷ []; delivered = []; taken = [] };
  progress = [];
}

five-IsFaithful : IsFaithful pipe 0 five
unfolding new_copy_buffer zeros
five-IsFaithful = record {
  ordered = omega arith;
  fits = omega arith;
  stream = refl;
  reported = refl;
  counted = refl;
}

poll_copy-Keeps_example : Keeps pipe 0 (poll_copy pipe 4 five)
poll_copy-Keeps_example = poll_copy-Keeps pipe 0 4 five five-IsFaithful

length-drop-take : (n : ℕ) (l : List ℕ) → length (drop n l) + length (take n l) ≡ length l
length-drop-take n l = omega (arith, length-drop n l, length-take n l)

abbrev pipe_bounded : IsBounded pipe
pipe_bounded = record {
  left = λ e. length e.todo;
  read_left = λ n e. omega (arith, length-drop-take n e.todo);
  write_left = λ bs e. omega arith;
  finish_left = λ e. omega arith;
}

poll_copy-Returns_example : Returns pipe (poll_copy pipe 12 five)
unfolding new_copy_buffer
poll_copy-Returns_example = poll_copy-Returns pipe pipe_bounded 12 five (omega arith) (omega arith)

abbrev five_running : Direction pipe
five_running = record { state = running five.buffer; env = five.env; progress = [] }

abbrev both : CopyBidirectional pipe pipe
both = record { a_to_b = five_running; b_to_a = five_running }

poll-BothTransferred_example : BothTransferred pipe pipe 0 0 (poll pipe pipe 12 both)
poll-BothTransferred_example =
    poll-BothTransferred pipe pipe 0 0 pipe_bounded pipe_bounded 12 both
      (five-IsFaithful, five-IsFaithful) (omega arith) (omega arith)

-- The same poll, run: all five bytes arrive and are counted.
abbrev five_done : Direction pipe
five_done = record {
  state = done 5;
  env = record { todo = []; delivered = 1 ∷ 2 ∷ 3 ∷ 4 ∷ 5 ∷ []; taken = 1 ∷ 2 ∷ 3 ∷ 4 ∷ 5 ∷ [] };
  progress = 1 ∷ 2 ∷ 2 ∷ [];
}

both_done :
    poll pipe pipe 12 both
    ≡ some (record { a_to_b = five_done; b_to_a = five_done }, ready (io_ok (5, 5)))
unfolding poll transfer_one_direction poll_copy new_copy_buffer zeros add64
both_done = refl
