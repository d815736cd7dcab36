-- ===== src/Aio/Delivered.antt =====
-- src/aio.rs: what the two directions of a connection deliver.
use plexy.Prelude.{
  ℕ, ◌+◌, ◌*◌, ◌%◌, ◌≤◌, ◌≡◌, refl, sym, ◌∙◌, ◌⊎◌, inl, inr, List, Option, some, length, subst,
  u64_mod,
}
use plexy.Aio.Streams.{Streams, Poll, IoResult, ready, pending, io_ok, io_err}
use plexy.Aio.Buffer.{Copy, return, poll_copy}
use plexy.Aio.Faithful.{sum, IsFaithful, Keeps}
use plexy.Aio.Faithful.Loop.{poll_copy-Keeps}
use plexy.Aio.Ends.{IsBounded}
use plexy.Aio.Ends.Rounds.{poll_copy-Returns}
use plexy.Aio.Transfer.{
  Direction, TransferState, running, shutting_down, done, after_shutdown, shut_down, running_as,
  after_copy, transfer_one_direction, CopyBidirectional, both_ready, poll_back, poll,
}

module _ (io : Streams) (base : ℕ) where
  -- The tunnel was told to finish, with these bytes received and sent.
  abbrev pub IsTold : io.Env → Type 0
  IsTold e =
      (before : io.Env) × (after : io.Env) × (io.poll_finish before ≡ (after, ready tt))
      × (io.received after ≡ io.received e)
      × (io.sent after ≡ io.sent e)

  -- A count is that of the bytes sent since `base` of them were, modulo 2^64, and all that was
  -- received was sent or the tunnel was told to finish.
  pub record IsDelivered (count : ℕ) (d : Direction io) : Type 0 where
    pub counted : count ≡ sum d.progress % u64_mod
    pub reported : length (io.sent d.env) ≡ base + sum d.progress
    pub complete : (io.received d.env ≡ io.sent d.env) ⊎ IsTold d.env

  -- A direction that still copies is faithful, and one that ends has delivered what its count says.
  abbrev pub IsSound : Direction io → Type 0
  IsSound d = elim d.state [
    | running buf ↦ IsFaithful io base (record { buffer = buf; env = d.env; progress = d.progress })
    | shutting_down count ↦ IsDelivered count d
    | done count ↦ IsDelivered count d
  ]

  abbrev pub EndsWith : Direction io → Poll (IoResult ℕ) → Type 0
  EndsWith d (ready (io_ok count)) = d.state ≡ done count
  EndsWith d (ready (io_err x)) = Unit
  EndsWith d pending = Unit

  -- A poll of a direction returned, sound, and its count is that of a direction that is done.
  abbrev pub Transferred : Option (Direction io × Poll (IoResult ℕ)) → Type 0
  Transferred o =
      (d : Direction io) × (r : Poll (IoResult ℕ)) × (o ≡ some (d, r)) × IsSound d × EndsWith d r

  moved :
      (count : ℕ) (d : Direction io) (e : io.Env) (state : TransferState)
      → IsDelivered count d
      → io.received e ≡ io.received d.env
      → io.sent e ≡ io.sent d.env
      → IsDelivered count (record d { env = e; state = state })
  moved count d e state h p q = record {
    counted = h.counted;
    reported = rw q h.reported;
    complete = elim h.complete [
      | inl x ↦ inl (p ∙ x ∙ sym q)
      | inr (before, after, x, y, z) ↦ inr (before, after, x, y ∙ sym p, z ∙ sym q)
    ];
  }

  after_shutdown-Transferred :
      (count : ℕ) (d : Direction io) (e : io.Env) (r : Poll (IoResult (Unit {0})))
      → IsDelivered count d
      → io.received e ≡ io.received d.env
      → io.sent e ≡ io.sent d.env
      → Transferred (some (after_shutdown io count d (e, r)))
  unfolding after_shutdown
  after_shutdown-Transferred count d e pending h p q =
      (_, _, refl, moved count d e (shutting_down count) h p q, tt)
  after_shutdown-Transferred count d e (ready (io_err x)) h p q =
      (_, _, refl, moved count d e (shutting_down count) h p q, tt)
  after_shutdown-Transferred count d e (ready (io_ok x)) h p q =
      (_, _, refl, moved count d e (done count) h p q, refl)

  shut_down-Transferred :
      (count : ℕ) (d : Direction io)
      → IsDelivered count d
      → Transferred (some (shut_down io count d))
  unfolding shut_down
  shut_down-Transferred count d h =
      after_shutdown-Transferred count d (io.poll_shutdown d.env).0 (io.poll_shutdown d.env).1 h
        (io.shutdown_received d.env) (io.shutdown_sent d.env)

  after_copy-Transferred :
      (c : Copy io) (r : Poll (IoResult ℕ))
      → Keeps io base (return c r)
      → Transferred (after_copy io (return c r))
  unfolding after_copy
  after_copy-Transferred c pending (h, x) = (_, _, refl, h, tt)
  after_copy-Transferred c (ready (io_err x)) (h, y) = (_, _, refl, h, tt)
  after_copy-Transferred c (ready (io_ok count)) (h, (e, k)) =
      shut_down-Transferred count (running_as io c) (record {
        counted = e ∙ h.counted;
        reported = h.reported;
        complete = elim k [ inl x ↦ inl x | inr (before, x) ↦ inr (before, c.env, x, refl, refl) ];
      })

  module _ (bounded : IsBounded io) where
    copied :
        (n : ℕ) (c : Copy io)
        → IsFaithful io base c
        → 2 * bounded.left c.env + 2 ≤ n
        → Transferred (after_copy io (poll_copy io n c))
    copied n c h k =
        let (d, r, e) = poll_copy-Returns io bounded n c h.ordered k in
        rw e (after_copy-Transferred d r (subst (Keeps io base) e (poll_copy-Keeps io base n c h)))

    transfer_from :
        (n : ℕ) (s : TransferState) (e : io.Env) (p : List ℕ)
        → IsSound (record { state = s; env = e; progress = p })
        → 2 * bounded.left e + 2 ≤ n
        → Transferred (transfer_one_direction io n (record { state = s; env = e; progress = p }))
    unfolding transfer_one_direction
    transfer_from n (running buf) e p x y =
        copied n (record { buffer = buf; env = e; progress = p }) x y
    transfer_from n (shutting_down count) e p x y =
        shut_down-Transferred count (record { state = shutting_down count; env = e; progress = p })
          x
    transfer_from n (done count) e p x y = (_, _, refl, x, refl)

    -- A poll of one direction returns and keeps it sound; when it answers with a count, it is done.
    pub transfer-Transferred :
        (n : ℕ) (d : Direction io)
        → IsSound d
        → 2 * bounded.left d.env + 2 ≤ n
        → Transferred (transfer_one_direction io n d)
    transfer-Transferred n d h k = transfer_from n d.state d.env d.progress h k

module _ (forth back : Streams) (base_forth base_back : ℕ) where
  abbrev pub BothSound : CopyBidirectional forth back → Type 0
  BothSound c = IsSound forth base_forth c.a_to_b × IsSound back base_back c.b_to_a

  abbrev pub BothEndWith : CopyBidirectional forth back → Poll (IoResult (ℕ × ℕ)) → Type 0
  BothEndWith c (ready (io_ok (a, b))) = (c.a_to_b.state ≡ done a) × (c.b_to_a.state ≡ done b)
  BothEndWith c (ready (io_err x)) = Unit
  BothEndWith c pending = Unit

  -- A poll of both directions returned, both are sound, and its counts are those of directions that
  -- are done.
  abbrev pub BothTransferred :
      Option (CopyBidirectional forth back × Poll (IoResult (ℕ × ℕ))) → Type 0
  BothTransferred o =
      (c : CopyBidirectional forth back) × (r : Poll (IoResult (ℕ × ℕ))) × (o ≡ some (c, r))
      × BothSound c
      × BothEndWith c r

  both_end :
      (a : Direction forth) (b : Direction back) (r q : Poll (IoResult ℕ))
      → EndsWith forth base_forth a r
      → EndsWith back base_back b q
      → BothEndWith (record { a_to_b = a; b_to_a = b }) (both_ready r q)
  both_end a b (ready (io_err x)) q h k = tt
  both_end a b (ready (io_ok x)) (ready (io_ok y)) h k = (h, k)
  both_end a b (ready (io_ok x)) (ready (io_err y)) h k = tt
  both_end a b (ready (io_ok x)) pending h k = tt
  both_end a b pending (ready (io_ok y)) h k = tt
  both_end a b pending (ready (io_err y)) h k = tt
  both_end a b pending pending h k = tt

  poll_back-BothTransferred :
      (n : ℕ) (a : Direction forth) (r : Poll (IoResult ℕ)) (b : Direction back)
      → IsSound forth base_forth a
      → EndsWith forth base_forth a r
      → IsSound back base_back b
      → Transferred back base_back (transfer_one_direction back n b)
      → BothTransferred (poll_back forth back n (a, r) b)
  unfolding poll_back
  poll_back-BothTransferred n a (ready (io_err x)) b h e g t = (_, _, refl, (h, g), tt)
  poll_back-BothTransferred n a (ready (io_ok x)) b h e g (d, q, eq, k, f) =
      rw (eq, poll_back) (_, _, refl, (h, k), both_end a d (ready (io_ok x)) q e f)
  poll_back-BothTransferred n a pending b h e g (d, q, eq, k, f) =
      rw (eq, poll_back) (_, _, refl, (h, k), both_end a d pending q e f)

  -- When the streams deliver only so much before they are pending: a poll of two sound directions,
  -- with two rounds for each byte left to be read and two more, returns and keeps both sound. When it
  -- answers with two counts both directions are done: each sent what it counts, and sent all that it
  -- received unless the tunnel was told to finish.
  pub poll-BothTransferred :
      (forth_bounded : IsBounded forth) (back_bounded : IsBounded back) (n : ℕ)
      (c : CopyBidirectional forth back)
      → BothSound c
      → 2 * forth_bounded.left c.a_to_b.env + 2 ≤ n
      → 2 * back_bounded.left c.b_to_a.env + 2 ≤ n
      → BothTransferred (poll forth back n c)
  unfolding poll
  poll-BothTransferred p q n c (h, g) hn gn =
      let (a, r, eq, k, e) = transfer-Transferred forth base_forth p n c.a_to_b h hn in
      rw (eq, poll)
        (poll_back-BothTransferred n a r c.b_to_a k e g
          (transfer-Transferred back base_back q n c.b_to_a g gn))
