-- ===== src/Aio/Ends/Rounds.antt =====
-- src/aio.rs: the rounds of the loop of `poll_copy`.
use plexy.Prelude.{
  ℕ, zero, suc, ◌+◌, ◌-◌, ◌*◌, ◌≤◌, ◌<◌, ◌≡◌, refl, ◌∙◌, ◌⊎◌, inl, inr, Bool, true, false, ◌&&◌,
  not, List, [], ◌∷◌, arith, length, ◌==◌, if◌then◌else◌, Bool-cases,
}
use plexy.Aio.Streams.{Streams, Poll, IoResult, ready, pending, io_ok, io_err, bytes_read}
use plexy.Aio.Buffer.{
  Copy, Flow, go, return, after_read, poll_fill_buf, write_loop, after_fill, after_idle_flush,
  after_last_flush, end_transfer, copy_round, fill_empty, after_finish, poll_copy, and_then,
}
use plexy.Aio.Ends.{IsBounded, Returns, Drained, write_loop-Drained}

module _ (io : Streams) (bounded : IsBounded io) where
  open bounded use {left, read_left, finish_left}

  -- Reads, and the unwritten rest of the buffer that costs a round without a read.
  abbrev measure : Copy io → ℕ
  measure c = 2 * left c.env + (if c.buffer.pos == c.buffer.cap then 0 else 1)

  -- Before the `while` loop: the reader is at its end, or the round made progress from `m`.
  abbrev Filled : ℕ → Flow io → Type 0
  Filled m (go d) =
      (d.buffer.pos ≤ d.buffer.cap) × ((d.buffer.read_done ≡ true) ⊎ (2 * left d.env + 1 ≤ m))
  Filled m (return d r) = Unit

  Filled-if :
      (m : ℕ) (t : Bool) (x y : Flow io)
      → (t ≡ true → Filled m x)
      → (t ≡ false → Filled m y)
      → Filled m (if t then x else y)
  Filled-if m true x y hx hy = hx refl
  Filled-if m false x y hx hy = hy refl

  Filled-mono :
      (m : ℕ) (c : Copy io) (f : Flow io) → measure c ≤ m → Filled (measure c) f → Filled m f
  Filled-mono m c (return d r) k x = tt
  Filled-mono m c (go d) k (h, inl e) = (h, inl e)
  Filled-mono m c (go d) k (h, inr l) = (h, inr (omega arith))

  after_idle_flush-Filled :
      (m : ℕ) (c : Copy io) (e : io.Env) (r : Poll (IoResult (Unit {0})))
      → Filled m (after_idle_flush io c (e, r))
  unfolding after_idle_flush
  after_idle_flush-Filled m c e (ready (io_ok x)) = tt
  after_idle_flush-Filled m c e (ready (io_err x)) = tt
  after_idle_flush-Filled m c e pending = tt

  after_read-Filled :
      (m : ℕ) (c : Copy io) (e : io.Env) (r : Poll (IoResult (List ℕ)))
      → c.buffer.pos ≤ c.buffer.cap
      → 2 * (left e + length (bytes_read r)) ≤ m
      → Filled m (after_fill io (after_read io c (e, r)))
  unfolding after_read after_fill
  after_read-Filled m c e pending h k =
      Filled-if m c.buffer.need_flush _ _
        (λ _. after_idle_flush-Filled m (record c { env = e }) _ _) (λ _. tt)
  after_read-Filled m c e (ready (io_err x)) h k = tt
  after_read-Filled m c e (ready (io_ok [])) h k = (omega arith, inl (ground arith))
  after_read-Filled m c e (ready (io_ok (b ∷ bs))) h k = (omega arith, inr (omega arith))

  fill_empty-Filled :
      (c : Copy io) → c.buffer.pos ≤ c.buffer.cap → Filled (measure c) (fill_empty io c)
  unfolding fill_empty poll_fill_buf
  fill_empty-Filled c h =
      Filled-if (measure c) (c.buffer.pos == c.buffer.cap && not c.buffer.read_done) _ _
        (λ t.
          let d : Copy io = record c { buffer = record c.buffer { pos = 0; cap = 0 } } in
          let p = io.poll_read (length c.buffer.buf - 0) c.env in
          after_read-Filled (measure c) d p.0 p.1 (omega arith)
            (omega (arith, read_left (length c.buffer.buf - 0) c.env)))
        (λ t. (
          h,
          (elim (Bool-cases c.buffer.read_done) [
            | inl e ↦ inl e
            | inr e ↦
                let ne : (c.buffer.pos == c.buffer.cap) ≡ false = ground arith in
                inr (rw ne (omega arith))
          ]),
        ))

  -- A round that goes on: the measure is below `m`.
  abbrev Shrinks : ℕ → Flow io → Type 0
  Shrinks m (go d) = (d.buffer.pos ≤ d.buffer.cap) × (measure d < m)
  Shrinks m (return d r) = Unit

  after_last_flush-Shrinks :
      (m : ℕ) (c : Copy io) (e : io.Env) (r : Poll (IoResult (Unit {0})))
      → Shrinks m (after_last_flush io c (e, r))
  unfolding after_last_flush
  after_last_flush-Shrinks m c e (ready (io_ok x)) = tt
  after_last_flush-Shrinks m c e (ready (io_err x)) = tt
  after_last_flush-Shrinks m c e pending = tt

  end_transfer-Shrinks :
      (m : ℕ) (c : Copy io)
      → c.buffer.pos ≡ c.buffer.cap
      → (c.buffer.read_done ≡ true) ⊎ (2 * left c.env + 1 ≤ m)
      → Shrinks m (end_transfer io c)
  unfolding end_transfer
  end_transfer-Shrinks m c h k =
      elim (Bool-cases (c.buffer.pos == c.buffer.cap && c.buffer.read_done)) [
        | inl t ↦ rw (t, end_transfer) (after_last_flush-Shrinks m c _ _)
        | inr t ↦
            let eq : (c.buffer.pos == c.buffer.cap) ≡ true = ground arith in
            let lt : 2 * left c.env + 1 ≤ m = ground arith in
            rw (t, end_transfer) (omega arith, rw eq (omega arith))
      ]

  loop_end-Shrinks :
      (m b : ℕ) (done : Bool) (f : Flow io)
      → Drained io bounded b done f
      → (done ≡ true) ⊎ (2 * b + 1 ≤ m)
      → Shrinks m (and_then io f (end_transfer io))
  unfolding and_then
  loop_end-Shrinks m b done (return d r) x k = tt
  loop_end-Shrinks m b done (go d) (p, q, e) k =
      end_transfer-Shrinks m d p (elim k [ inl t ↦ inl (e ∙ t) | inr l ↦ inr (omega arith) ])

  round-Shrinks :
      (m : ℕ) (f : Flow io)
      → Filled m f
      → Shrinks m (
          and_then io f
            λ d. and_then io (write_loop io (d.buffer.cap - d.buffer.pos) d) (end_transfer io))
  unfolding and_then
  round-Shrinks m (return d r) x = tt
  round-Shrinks m (go d) (h, k) =
      loop_end-Shrinks m (left d.env) d.buffer.read_done
        (write_loop io (d.buffer.cap - d.buffer.pos) d)
        (write_loop-Drained io bounded (d.buffer.cap - d.buffer.pos) (left d.env) d h (omega arith)
          (omega arith))
        k

  after_finish-Shrinks :
      (m : ℕ) (c : Copy io) (e : io.Env) (r : Poll (Unit {0}))
      → c.buffer.pos ≤ c.buffer.cap
      → measure (record c { env = e }) ≤ m
      → Shrinks m (after_finish io c (e, r))
  unfolding after_finish copy_round
  after_finish-Shrinks m c e (ready x) h k = tt
  after_finish-Shrinks m c e pending h k =
      let d : Copy io = record c { env = e } in
      round-Shrinks m (fill_empty io d)
        (Filled-mono m d (fill_empty io d) k (fill_empty-Filled d h))

  go_on-Returns :
      (n m : ℕ) (f : Flow io)
      → Shrinks m f
      → m ≤ n
      → ((d : Copy io)
          → d.buffer.pos ≤ d.buffer.cap
          → measure d < n
          → Returns io (poll_copy io n d))
      → Returns io (and_then io f (poll_copy io n))
  unfolding and_then
  go_on-Returns n m (go d) (h, lt) k rest = rest d h (omega arith)
  go_on-Returns n m (return d r) x k rest = (d, r, refl)

  measured-Returns :
      (n : ℕ) (c : Copy io)
      → c.buffer.pos ≤ c.buffer.cap
      → measure c < n
      → Returns io (poll_copy io n c)
  unfolding poll_copy
  measured-Returns zero c h lt = absurd (omega arith)
  measured-Returns (suc n) c h lt =
      go_on-Returns n (measure c) (after_finish io c (io.poll_finish c.env))
        (after_finish-Shrinks (measure c) c (io.poll_finish c.env).0 (io.poll_finish c.env).1 h
          (omega (arith, finish_left c.env)))
        (omega arith) (measured-Returns n)

  -- When the streams deliver only so much before they are pending: a poll of a direction whose buffer
  -- has no more written than filled returns within two rounds for each byte that is left to be read,
  -- and two more.
  pub poll_copy-Returns :
      (n : ℕ) (c : Copy io)
      → c.buffer.pos ≤ c.buffer.cap
      → 2 * left c.env + 2 ≤ n
      → Returns io (poll_copy io n c)
  poll_copy-Returns n c h k = elim (Bool-cases (c.buffer.pos == c.buffer.cap)) [
    | inl e ↦ measured-Returns n c h (rw e (omega arith))
    | inr e ↦ measured-Returns n c h (rw e (omega arith))
  ]
