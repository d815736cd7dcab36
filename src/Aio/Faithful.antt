-- ===== src/Aio/Faithful.antt =====
-- src/aio.rs, `poll_copy`: the bytes received, in the buffer and sent, and their count.
pub mod Fill
pub mod Loop
use plexy.Prelude.{
  ℕ, zero, suc, ◌+◌, ◌-◌, ◌%◌, ◌≤◌, ◌<◌, ◌≡◌, ◌⊎◌, Bool, true, false, List, [], ◌∷◌, ◌++◌, length,
  u64_mod, if◌then◌else◌,
}
use plexy.Aio.Streams.{Streams, Poll, IoResult, ready, pending, io_ok, io_err}
use plexy.Aio.Buffer.{CopyBuffer, Copy, Flow, go, return, unwritten, and_then}

abbrev pub sum : List ℕ → ℕ
sum [] = 0
sum (n ∷ ns) = n + sum ns

-- The buffer holds what was received and not yet sent; `amt` counts what was sent, modulo 2^64,
-- and `update_progress` got the amounts that make it up. `base` was sent before.
pub record IsFaithful (io : Streams) (base : ℕ) (c : Copy io) : Type 0 where
  pub ordered : c.buffer.pos ≤ c.buffer.cap
  pub fits : c.buffer.cap ≤ length c.buffer.buf
  pub stream : io.received c.env ≡ io.sent c.env ++ unwritten c.buffer
  pub reported : length (io.sent c.env) ≡ base + sum c.progress
  pub counted : c.buffer.amt ≡ sum c.progress % u64_mod

module _ (io : Streams) (base : ℕ) where
  -- What is claimed of an answer: a count is that of `amt`, and either all that was received was
  -- sent or the tunnel was told to finish.
  abbrev pub Answers : Copy io → Poll (IoResult ℕ) → Type 0
  Answers c (ready (io_ok n)) =
      (n ≡ c.buffer.amt)
      × ((io.received c.env ≡ io.sent c.env)
          ⊎ ((e : io.Env) × (io.poll_finish e ≡ (c.env, ready tt))))
  Answers c (ready (io_err x)) = Unit
  Answers c pending = Unit

  abbrev pub Keeps : Flow io → Type 0
  Keeps (go c) = IsFaithful io base c
  Keeps (return c r) = IsFaithful io base c × Answers c r

  pub Keeps-if : (b : Bool) (x y : Flow io) → Keeps x → Keeps y → Keeps (if b then x else y)
  Keeps-if true x y hx hy = hx
  Keeps-if false x y hx hy = hy

  pub Keeps-and_then :
      (x : Flow io) (k : Copy io → Flow io)
      → Keeps x
      → ((c : Copy io) → IsFaithful io base c → Keeps (k c))
      → Keeps (and_then io x k)
  unfolding and_then
  Keeps-and_then (go c) k h f = f c h
  Keeps-and_then (return c r) k h f = h
