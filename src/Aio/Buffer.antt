-- ===== src/Aio/Buffer.antt =====
-- src/aio.rs, `CopyBuffer`: one direction of a connection.
use plexy.Prelude.{
  ℕ, zero, suc, ◌+◌, ◌-◌, Bool, true, false, ◌&&◌, not, List, [], ◌∷◌, ◌++◌, Text, codes, length,
  take, drop, add64, ltb, ◌==◌, if◌then◌else◌,
}
use plexy.Aio.Streams.{Streams, Poll, IoResult, ready, pending, io_ok, io_err}

pub record CopyBuffer : Type 0 where
  pub read_done : Bool
  pub need_flush : Bool
  pub pos : ℕ
  pub cap : ℕ
  pub amt : ℕ
  pub buf : List ℕ

-- `vec![0; n]`
unfoldable pub zeros : ℕ → List ℕ
zeros zero = []
zeros (suc n) = 0 ∷ zeros n

-- `CopyBuffer::new`
unfoldable pub new_copy_buffer : ℕ → CopyBuffer
new_copy_buffer buf_size = record {
  read_done = false;
  need_flush = false;
  pos = 0;
  cap = 0;
  amt = 0;
  buf = zeros buf_size;
}

-- `&me.buf[me.pos..me.cap]`
abbrev pub unwritten : CopyBuffer → List ℕ
unwritten b = drop b.pos (take b.cap b.buf)

-- The bytes of a `ReadBuf` after `bs` was put behind its filled part.
abbrev pub put_slice : ℕ → List ℕ → List ℕ → List ℕ
put_slice at bs buf = take at buf ++ bs ++ drop (at + length bs) buf

-- `io::Error::new(io::ErrorKind::WriteZero, "write zero byte into writer")`
abbrev pub write_zero : Text
write_zero = codes "write zero byte into writer"

module _ (io : Streams) where
  open io use {Env, poll_finish, poll_read, poll_write, poll_flush}

  -- A copy buffer with its streams, and the amounts passed to `update_progress`, newest first.
  pub record Copy : Type 0 where
    pub buffer : CopyBuffer
    pub env : Env
    pub progress : List ℕ

  -- `poll_fill_buf`, after `poll_read`
  unfoldable pub after_read :
      Copy → Env × Poll (IoResult (List ℕ)) → Copy × Poll (IoResult (Unit {0}))
  after_read c (e, pending) = (record c { env = e }, pending)
  after_read c (e, ready (io_err x)) = (record c { env = e }, ready (io_err x))
  after_read c (e, ready (io_ok bs)) =
      let filled_len = c.buffer.cap + length bs in
      (
        record c {
          env = e;
          buffer = record c.buffer {
            buf = put_slice c.buffer.cap bs c.buffer.buf;
            read_done = c.buffer.cap == filled_len;
            cap = filled_len;
          };
        },
        ready (io_ok tt),
      )

  unfoldable pub poll_fill_buf : Copy → Copy × Poll (IoResult (Unit {0}))
  unfolding after_read
  poll_fill_buf c = after_read c (poll_read (length c.buffer.buf - c.buffer.cap) c.env)

  -- `ready!(me.poll_fill_buf(..))?; Poll::Pending`
  unfoldable pub pending_after : Copy × Poll (IoResult (Unit {0})) → Copy × Poll (IoResult ℕ)
  pending_after (c, ready (io_err x)) = (c, ready (io_err x))
  pending_after (c, ready (io_ok _)) = (c, pending)
  pending_after (c, pending) = (c, pending)

  -- `poll_write_buf`, after `poll_write`
  unfoldable pub after_write : Copy → Env × Poll (IoResult ℕ) → Copy × Poll (IoResult ℕ)
  unfolding poll_fill_buf pending_after
  after_write c (e, pending) =
      let c' : Copy = record c { env = e } in
      if not c.buffer.read_done && ltb c.buffer.cap (length c.buffer.buf)
      then pending_after (poll_fill_buf c')
      else (c', pending)
  after_write c (e, ready r) = (record c { env = e }, ready r)

  unfoldable pub poll_write_buf : Copy → Copy × Poll (IoResult ℕ)
  unfolding after_write
  poll_write_buf c = after_write c (poll_write (unwritten c.buffer) c.env)

  -- The body of the `while` loop when `i > 0` bytes were written.
  unfoldable pub advance : ℕ → Copy → Copy
  advance i c = record c {
    buffer = record c.buffer {
      pos = c.buffer.pos + i;
      amt = add64 c.buffer.amt i;
      need_flush = true;
    };
    progress = i ∷ c.progress;
  }

  -- What a part of `poll_copy` does: go on, or return.
  pub data Flow : Type 0 where
    go : Copy → Flow
    return : Copy → Poll (IoResult ℕ) → Flow

  -- One round of the `while` loop, after `poll_write_buf`; `rest` goes on with the loop.
  unfoldable pub after_write_buf : (Copy → Flow) → Copy × Poll (IoResult ℕ) → Flow
  unfolding advance
  after_write_buf rest (c, pending) = return c pending
  after_write_buf rest (c, ready (io_err x)) = return c (ready (io_err x))
  after_write_buf rest (c, ready (io_ok zero)) = return c (ready (io_err write_zero))
  after_write_buf rest (c, ready (io_ok (suc i))) = rest (advance (suc i) c)

  -- `while self.pos < self.cap`. Each round moves `pos` on, so `cap - pos` rounds are enough.
  unfoldable pub write_loop : ℕ → Copy → Flow
  unfolding after_write_buf poll_write_buf
  write_loop zero c = go c
  write_loop (suc n) c =
      let round = after_write_buf (write_loop n) (poll_write_buf c) in
      if ltb c.buffer.pos c.buffer.cap then round else go c

  -- `ready!(writer.poll_flush(cx))?` when the reader has no progress
  unfoldable pub after_idle_flush : Copy → Env × Poll (IoResult (Unit {0})) → Flow
  after_idle_flush c (e, pending) = return (record c { env = e }) pending
  after_idle_flush c (e, ready (io_err x)) = return (record c { env = e }) (ready (io_err x))
  after_idle_flush c (e, ready (io_ok _)) =
      return (record c { env = e; buffer = record c.buffer { need_flush = false } }) pending

  -- The arms of the match on `poll_fill_buf`.
  unfoldable pub after_fill : Copy × Poll (IoResult (Unit {0})) → Flow
  unfolding after_idle_flush
  after_fill (c, ready (io_ok _)) = go c
  after_fill (c, ready (io_err x)) = return c (ready (io_err x))
  after_fill (c, pending) =
      if c.buffer.need_flush then after_idle_flush c (poll_flush c.env) else return c pending

  -- `if self.pos == self.cap && !self.read_done`
  unfoldable pub fill_empty : Copy → Flow
  unfolding after_fill poll_fill_buf
  fill_empty c =
      if c.buffer.pos == c.buffer.cap && not c.buffer.read_done
      then after_fill (poll_fill_buf (record c { buffer = record c.buffer { pos = 0; cap = 0 } }))
      else go c

  -- The flush at the end of the transfer.
  unfoldable pub after_last_flush : Copy → Env × Poll (IoResult (Unit {0})) → Flow
  after_last_flush c (e, pending) = return (record c { env = e }) pending
  after_last_flush c (e, ready (io_err x)) = return (record c { env = e }) (ready (io_err x))
  after_last_flush c (e, ready (io_ok _)) =
      return (record c { env = e }) (ready (io_ok c.buffer.amt))

  -- `if self.pos == self.cap && self.read_done`
  unfoldable pub end_transfer : Copy → Flow
  unfolding after_last_flush
  end_transfer c =
      if c.buffer.pos == c.buffer.cap && c.buffer.read_done
      then after_last_flush c (poll_flush c.env)
      else go c

  unfoldable pub and_then : Flow → (Copy → Flow) → Flow
  and_then (go c) k = k c
  and_then (return c r) k = return c r

  -- The loop's body once the tunnel goes on.
  unfoldable pub copy_round : Copy → Flow
  unfolding fill_empty write_loop end_transfer and_then
  copy_round c =
      and_then (fill_empty c)
        λ d. and_then (write_loop (d.buffer.cap - d.buffer.pos) d) end_transfer

  -- The loop's body, after `poll_finish`.
  unfoldable pub after_finish : Copy → Env × Poll (Unit {0}) → Flow
  unfolding copy_round
  after_finish c (e, ready _) = return (record c { env = e }) (ready (io_ok c.buffer.amt))
  after_finish c (e, pending) = copy_round (record c { env = e })

  -- `poll_copy`, in at most so many rounds; `go` means that these were not enough.
  unfoldable pub poll_copy : ℕ → Copy → Flow
  unfolding after_finish
  poll_copy zero c = go c
  poll_copy (suc n) c = and_then (after_finish c (poll_finish c.env)) (poll_copy n)
