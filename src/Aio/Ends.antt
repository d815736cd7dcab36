-- ===== src/Aio/Ends.antt =====
-- `poll_copy` of src/aio.rs, when the streams deliver only so much before they are pending: the
-- `while` loop.
pub mod Rounds
use plexy.Prelude.{
  ℕ, zero, suc, ◌+◌, ◌-◌, ◌*◌, ◌≤◌, ◌<◌, ◌≡◌, refl, ap, sym, ◌∙◌, ◌⊎◌, inl, inr, Bool, true, false,
  ◌&&◌, not, List, [], ◌∷◌, ◌++◌, arith, length, take, drop, length-take, length-drop, ◌==◌, ltb,
  if◌then◌else◌, Bool-cases,
}
use plexy.Aio.Streams.{
  Streams, Poll, IoResult, ready, pending, io_ok, io_err, bytes_read, bytes_written,
}
use plexy.Aio.Buffer.{
  CopyBuffer, Copy, Flow, go, return, unwritten, after_read, after_write, poll_write_buf,
  pending_after, poll_fill_buf, advance, after_write_buf, write_loop, after_fill, after_idle_flush,
  after_last_flush, end_transfer, copy_round, fill_empty, after_finish, poll_copy, and_then,
}

-- What is left to be read before the reader is pending or at its end. Each read takes from it what it
-- delivers, and no other poll adds to it.
pub record IsBounded (io : Streams) : Type 0 where
  pub left : io.Env → ℕ
  pub read_left :
      (n : ℕ) (e : io.Env)
      → left (io.poll_read n e).0 + length (bytes_read (io.poll_read n e).1) ≤ left e
  pub write_left : (bs : List ℕ) (e : io.Env) → left (io.poll_write bs e).0 ≤ left e
  pub finish_left : (e : io.Env) → left (io.poll_finish e).0 ≤ left e

module _ (io : Streams) where
  abbrev pub Returns : Flow io → Type 0
  Returns f = (c : Copy io) × (r : Poll (IoResult ℕ)) × (f ≡ return c r)

module _ (io : Streams) (bounded : IsBounded io) where
  open bounded use {left, read_left, write_left, finish_left}

  -- After the `while` loop: nothing is unwritten, and no more is left to be read than `b`.
  abbrev pub Drained : ℕ → Bool → Flow io → Type 0
  Drained b done (go d) =
      (d.buffer.pos ≡ d.buffer.cap) × (left d.env ≤ b) × (d.buffer.read_done ≡ done)
  Drained b done (return d r) = Unit

  Drained-if :
      (b : ℕ) (done t : Bool) (x y : Flow io)
      → (t ≡ true → Drained b done x)
      → (t ≡ false → Drained b done y)
      → Drained b done (if t then x else y)
  Drained-if b done true x y hx hy = hx refl
  Drained-if b done false x y hx hy = hy refl

  pending_after-Drained :
      (b : ℕ) (done : Bool) (rest : Copy io → Flow io) (c : Copy io)
      (r : Poll (IoResult (Unit {0})))
      → Drained b done (after_write_buf io rest (pending_after io (c, r)))
  unfolding after_write_buf pending_after
  pending_after-Drained b done rest c (ready (io_ok x)) = tt
  pending_after-Drained b done rest c (ready (io_err x)) = tt
  pending_after-Drained b done rest c pending = tt

  after_write-Drained :
      (b : ℕ) (done : Bool) (rest : Copy io → Flow io) (c : Copy io) (e : io.Env)
      (r : Poll (IoResult ℕ))
      → ((i : ℕ)
          → suc i ≡ bytes_written r
          → Drained b done (rest (advance io (suc i) (record c { env = e }))))
      → Drained b done (after_write_buf io rest (after_write io c (e, r)))
  unfolding after_write_buf after_write
  after_write-Drained b done rest c e (ready (io_ok zero)) h = tt
  after_write-Drained b done rest c e (ready (io_ok (suc i))) h = h i refl
  after_write-Drained b done rest c e (ready (io_err x)) h = tt
  after_write-Drained b done rest c e pending h =
      elim (Bool-cases (not c.buffer.read_done && ltb c.buffer.cap (length c.buffer.buf))) [
        | inl t ↦
            rw (t, after_write)
              (pending_after-Drained b done rest (poll_fill_buf io (record c { env = e })).0
                (poll_fill_buf io (record c { env = e })).1)
        | inr t ↦ rw (t, after_write) tt
      ]

  pub write_loop-Drained :
      (n : ℕ) (b : ℕ) (c : Copy io)
      → c.buffer.pos ≤ c.buffer.cap
      → c.buffer.cap ≤ c.buffer.pos + n
      → left c.env ≤ b
      → Drained b c.buffer.read_done (write_loop io n c)
  unfolding write_loop poll_write_buf advance
  write_loop-Drained zero b c h k m = (omega arith, m, refl)
  write_loop-Drained (suc n) b c h k m =
      let u = unwritten c.buffer in
      Drained-if b c.buffer.read_done (ltb c.buffer.pos c.buffer.cap) _ _
        (λ _. after_write-Drained b c.buffer.read_done (write_loop io n) c _ _ (λ i e.
          write_loop-Drained n b (advance io (suc i) (record c { env = (io.poll_write u c.env).0 }))
            (omega (
              arith,
              io.write_fits u c.env,
              length-drop c.buffer.pos (take c.buffer.cap c.buffer.buf),
              length-take c.buffer.cap c.buffer.buf,
            ))
            (omega arith) (omega (arith, write_left u c.env))))
        (λ e. (ground arith, m, refl))
