-- ===== src/Aio/Streams.antt =====
-- The streams that src/aio.rs polls, tokio's `AsyncRead` and `AsyncWrite`, with the channel that ends a
-- tunnel, as an interface. `Env` is the world in which they live.
use plexy.Prelude.{ℕ, ◌≤◌, ◌≡◌, ◌++◌, List, [], Text, length, take}

pub data Poll {ℓ} (A : Type ℓ) : Type ℓ where
  ready : A → Poll A
  pending : Poll A

-- `io::Result`, an error kept as its message
pub data IoResult {ℓ} (A : Type ℓ) : Type ℓ where
  io_ok : A → IoResult A
  io_err : Text → IoResult A

-- The bytes that a read delivered.
abbrev pub bytes_read : Poll (IoResult (List ℕ)) → List ℕ
bytes_read pending = []
bytes_read (ready (io_err e)) = []
bytes_read (ready (io_ok bs)) = bs

-- The bytes that a write took.
abbrev pub bytes_written : Poll (IoResult ℕ) → ℕ
bytes_written pending = 0
bytes_written (ready (io_err e)) = 0
bytes_written (ready (io_ok n)) = n

pub record Streams : Type 1 where
  pub Env : Type 0
  -- the future that is ready when the tunnel is told to finish
  pub poll_finish : Env → Env × Poll (Unit {0})
  -- `poll_read` into a buffer with so much room: the bytes it appends
  pub poll_read : ℕ → Env → Env × Poll (IoResult (List ℕ))
  pub poll_write : List ℕ → Env → Env × Poll (IoResult ℕ)
  pub poll_flush : Env → Env × Poll (IoResult (Unit {0}))
  pub poll_shutdown : Env → Env × Poll (IoResult (Unit {0}))
  -- what the reader has delivered and the writer has taken so far
  pub received : Env → List ℕ
  pub sent : Env → List ℕ
  -- a `ReadBuf` is never filled past its end
  pub read_fits : (n : ℕ) (e : Env) → length (bytes_read (poll_read n e).1) ≤ n
  pub read_received :
      (n : ℕ) (e : Env) → received (poll_read n e).0 ≡ received e ++ bytes_read (poll_read n e).1
  pub read_sent : (n : ℕ) (e : Env) → sent (poll_read n e).0 ≡ sent e
  -- a writer takes a front part of the slice
  pub write_fits : (bs : List ℕ) (e : Env) → bytes_written (poll_write bs e).1 ≤ length bs
  pub write_sent :
      (bs : List ℕ) (e : Env)
      → sent (poll_write bs e).0 ≡ sent e ++ take (bytes_written (poll_write bs e).1) bs
  pub write_received : (bs : List ℕ) (e : Env) → received (poll_write bs e).0 ≡ received e
  pub flush_received : (e : Env) → received (poll_flush e).0 ≡ received e
  pub flush_sent : (e : Env) → sent (poll_flush e).0 ≡ sent e
  pub finish_received : (e : Env) → received (poll_finish e).0 ≡ received e
  pub finish_sent : (e : Env) → sent (poll_finish e).0 ≡ sent e
  pub shutdown_received : (e : Env) → received (poll_shutdown e).0 ≡ received e
  pub shutdown_sent : (e : Env) → sent (poll_shutdown e).0 ≡ sent e
