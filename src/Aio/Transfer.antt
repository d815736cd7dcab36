-- ===== src/Aio/Transfer.antt =====
-- src/aio.rs, `TransferState`, `transfer_one_direction` and `CopyBidirectional`: a connection's two
-- directions. The halves that one direction uses are apart from those of the other.
use plexy.Prelude.{ℕ, List, Option, none, some}
use plexy.Aio.Streams.{Streams, Poll, IoResult, ready, pending, io_ok, io_err}
use plexy.Aio.Buffer.{CopyBuffer, Copy, Flow, go, return, poll_copy}

pub data TransferState : Type 0 where
  running : CopyBuffer → TransferState
  shutting_down : ℕ → TransferState
  done : ℕ → TransferState

module _ (io : Streams) where
  -- A direction's state with its streams and the amounts that were passed to `update_progress`.
  pub record Direction : Type 0 where
    pub state : TransferState
    pub env : io.Env
    pub progress : List ℕ

  -- The arm `ShuttingDown`, after `poll_shutdown`, and the round through `Done` behind it.
  unfoldable pub after_shutdown :
      ℕ → Direction → io.Env × Poll (IoResult (Unit {0})) → Direction × Poll (IoResult ℕ)
  after_shutdown count d (e, pending) = (record d { env = e; state = shutting_down count }, pending)
  after_shutdown count d (e, ready (io_err x)) =
      (record d { env = e; state = shutting_down count }, ready (io_err x))
  after_shutdown count d (e, ready (io_ok _)) =
      (record d { env = e; state = done count }, ready (io_ok count))

  unfoldable pub shut_down : ℕ → Direction → Direction × Poll (IoResult ℕ)
  unfolding after_shutdown
  shut_down count d = after_shutdown count d (io.poll_shutdown d.env)

  abbrev pub running_as : Copy io → Direction
  running_as c = record { state = running c.buffer; env = c.env; progress = c.progress }

  -- The arm `Running`, after `poll_copy`; `none` when its rounds were not enough.
  unfoldable pub after_copy : Flow io → Option (Direction × Poll (IoResult ℕ))
  unfolding shut_down
  after_copy (go c) = none
  after_copy (return c pending) = some (running_as c, pending)
  after_copy (return c (ready (io_err x))) = some (running_as c, ready (io_err x))
  after_copy (return c (ready (io_ok count))) = some (shut_down count (running_as c))

  -- `transfer_one_direction`, with so many rounds for `poll_copy`
  unfoldable pub transfer_one_direction : ℕ → Direction → Option (Direction × Poll (IoResult ℕ))
  unfolding after_copy shut_down
  transfer_one_direction n d = elim d.state [
    | running buf ↦
        after_copy (poll_copy io n (record { buffer = buf; env = d.env; progress = d.progress }))
    | shutting_down count ↦ some (shut_down count d)
    | done count ↦ some (d, ready (io_ok count))
  ]

-- The last two `ready!`, once neither direction failed.
abbrev pub both_ready : Poll (IoResult ℕ) → Poll (IoResult ℕ) → Poll (IoResult (ℕ × ℕ))
both_ready (ready (io_ok a)) (ready (io_ok b)) = ready (io_ok (a, b))
both_ready (ready (io_err x)) b = ready (io_err x)
both_ready (ready (io_ok a)) (ready (io_err x)) = ready (io_err x)
both_ready (ready (io_ok a)) pending = pending
both_ready pending (ready (io_err x)) = ready (io_err x)
both_ready pending (ready (io_ok b)) = pending
both_ready pending pending = pending

module _ (forth back : Streams) where
  pub record CopyBidirectional : Type 0 where
    pub a_to_b : Direction forth
    pub b_to_a : Direction back

  -- The direction back, polled when the direction forth did not fail.
  unfoldable pub poll_back :
      ℕ
      → Direction forth × Poll (IoResult ℕ)
      → Direction back
      → Option (CopyBidirectional × Poll (IoResult (ℕ × ℕ)))
  poll_back n (a, ready (io_err x)) b = some (record { a_to_b = a; b_to_a = b }, ready (io_err x))
  poll_back n (a, ready (io_ok k)) b = elim (transfer_one_direction back n b) [
    | none ↦ none
    | some p ↦ some (record { a_to_b = a; b_to_a = p.0 }, both_ready (ready (io_ok k)) p.1)
  ]
  poll_back n (a, pending) b = elim (transfer_one_direction back n b) [
    | none ↦ none
    | some p ↦ some (record { a_to_b = a; b_to_a = p.0 }, both_ready pending p.1)
  ]

  -- `CopyBidirectional::poll`, with so many rounds for each `poll_copy`
  unfoldable pub poll : ℕ → CopyBidirectional → Option (CopyBidirectional × Poll (IoResult (ℕ × ℕ)))
  unfolding poll_back
  poll n c = elim (transfer_one_direction forth n c.a_to_b) [
    | none ↦ none
    | some p ↦ poll_back n p c.b_to_a
  ]
