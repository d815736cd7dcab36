-- ===== src/Aio/Faithful/Loop.antt =====
-- src/aio.rs, `poll_copy`: writing out of the buffer, and the loop as a whole.
use plexy.Prelude.{
  ℕ, zero, suc, ◌-◌, ◌≤◌, ◌≡◌, refl, ap, sym, ◌∙◌, inl, inr, Bool, true, false, ◌&&◌, not, List, [],
  ◌++◌, append_assoc, append-nil, arith, length, take, drop, drop-add, drop_all, length-append,
  length-take, length-drop, take-append-drop, add64, ◌==◌, ltb, if◌then◌else◌, Bool-cases,
}
use plexy.Aio.Streams.{Streams, Poll, IoResult, ready, pending, io_ok, io_err, bytes_written}
use plexy.Aio.Buffer.{
  Copy, Flow, unwritten, after_write, poll_write_buf, pending_after, advance, after_write_buf,
  write_loop, after_last_flush, end_transfer, copy_round, after_finish, poll_copy,
}
use plexy.Aio.Faithful.{IsFaithful, Keeps, Keeps-if, Keeps-and_then}
use plexy.Aio.Faithful.Fill.{same_bytes, poll_fill_buf-IsFaithful, fill_empty-Keeps}

module _ (io : Streams) (base : ℕ) where
  -- After `poll_write_buf`: faithful, or faithful once the bytes written are passed over.
  abbrev Wrote : Copy io × Poll (IoResult ℕ) → Type 0
  Wrote (c, pending) = IsFaithful io base c
  Wrote (c, ready (io_err x)) = IsFaithful io base c
  Wrote (c, ready (io_ok zero)) = IsFaithful io base c
  Wrote (c, ready (io_ok (suc i))) = IsFaithful io base (advance io (suc i) c)

  pending_after-Wrote :
      (c : Copy io) (r : Poll (IoResult (Unit {0})))
      → IsFaithful io base c
      → Wrote (pending_after io (c, r))
  unfolding pending_after
  pending_after-Wrote c (ready (io_err x)) h = h
  pending_after-Wrote c (ready (io_ok x)) h = h
  pending_after-Wrote c pending h = h

  Wrote-if :
      (b : Bool) (x y : Copy io × Poll (IoResult ℕ))
      → Wrote x
      → Wrote y
      → Wrote (if b then x else y)
  Wrote-if true x y hx hy = hx
  Wrote-if false x y hx hy = hy

  after_write-Wrote :
      (c : Copy io) (e : io.Env) (r : Poll (IoResult ℕ))
      → IsFaithful io base c
      → io.received e ≡ io.received c.env
      → io.sent e ≡ io.sent c.env ++ take (bytes_written r) (unwritten c.buffer)
      → bytes_written r ≤ length (unwritten c.buffer)
      → Wrote (after_write io c (e, r))
  unfolding after_write
  after_write-Wrote c e pending h p q fits =
      let k = same_bytes io base c e h p (q ∙ append-nil _) in
      Wrote-if (not c.buffer.read_done && ltb c.buffer.cap (length c.buffer.buf)) _ _
        (pending_after-Wrote _ _ (poll_fill_buf-IsFaithful io base _ k)) k
  after_write-Wrote c e (ready (io_err x)) h p q fits =
      same_bytes io base c e h p (q ∙ append-nil _)
  after_write-Wrote c e (ready (io_ok zero)) h p q fits =
      same_bytes io base c e h p (q ∙ append-nil _)
  after_write-Wrote c e (ready (io_ok (suc i))) h p q fits =
      unfold advance in
      record {
        ordered = omega (
          arith,
          length-drop c.buffer.pos (take c.buffer.cap c.buffer.buf),
          length-take c.buffer.cap c.buffer.buf,
          h.ordered,
          fits,
        );
        fits = h.fits;
        stream =
            p
            ∙ h.stream
            ∙ ap (λ (z : List ℕ). io.sent c.env ++ z)
                (sym (take-append-drop (suc i) (unwritten c.buffer)))
            ∙ sym (
                append_assoc (io.sent c.env) (take (suc i) (unwritten c.buffer))
                  (drop (suc i) (unwritten c.buffer)))
            ∙ ap (λ (z : List ℕ). z ++ drop (suc i) (unwritten c.buffer)) (sym q)
            ∙ ap (λ (z : List ℕ). io.sent e ++ z)
                (sym (drop-add c.buffer.pos (suc i) (take c.buffer.cap c.buffer.buf)));
        reported = omega (
          arith,
          ap (λ (z : List ℕ). length z) q,
          length-append (io.sent c.env) (take (suc i) (unwritten c.buffer)),
          length-take (suc i) (unwritten c.buffer),
          fits,
          h.reported,
        );
        counted = unfold add64 in omega (arith, h.counted);
      }

  poll_write_buf-Wrote : (c : Copy io) → IsFaithful io base c → Wrote (poll_write_buf io c)
  unfolding poll_write_buf
  poll_write_buf-Wrote c h =
      let u = unwritten c.buffer in
      after_write-Wrote c _ _ h (io.write_received u c.env) (io.write_sent u c.env)
        (io.write_fits u c.env)

  after_write_buf-Keeps :
      (rest : Copy io → Flow io) (p : Copy io × Poll (IoResult ℕ))
      → ((c : Copy io) → IsFaithful io base c → Keeps io base (rest c))
      → Wrote p
      → Keeps io base (after_write_buf io rest p)
  unfolding after_write_buf
  after_write_buf-Keeps rest (c, pending) k w = (w, tt)
  after_write_buf-Keeps rest (c, ready (io_err x)) k w = (w, tt)
  after_write_buf-Keeps rest (c, ready (io_ok zero)) k w = (w, tt)
  after_write_buf-Keeps rest (c, ready (io_ok (suc i))) k w = k _ w

  write_loop-Keeps :
      (n : ℕ) (c : Copy io) → IsFaithful io base c → Keeps io base (write_loop io n c)
  unfolding write_loop
  write_loop-Keeps zero c h = h
  write_loop-Keeps (suc n) c h =
      Keeps-if io base (ltb c.buffer.pos c.buffer.cap) _ _
        (after_write_buf-Keeps (write_loop io n) _ (write_loop-Keeps n) (poll_write_buf-Wrote c h))
        h

  after_last_flush-Keeps :
      (c : Copy io) (r : Poll (IoResult (Unit {0})))
      → IsFaithful io base c
      → unwritten c.buffer ≡ []
      → Keeps io base (after_last_flush io c ((io.poll_flush c.env).0, r))
  unfolding after_last_flush
  after_last_flush-Keeps c (ready (io_ok x)) h e =
      let k = same_bytes io base c _ h (io.flush_received c.env) (io.flush_sent c.env) in
      (
        k,
        (
          refl,
          inl (
              k.stream
              ∙ ap (λ (z : List ℕ). io.sent (io.poll_flush c.env).0 ++ z) e
              ∙ append-nil _),
        ),
      )
  after_last_flush-Keeps c (ready (io_err x)) h e =
      (same_bytes io base c _ h (io.flush_received c.env) (io.flush_sent c.env), tt)
  after_last_flush-Keeps c pending h e =
      (same_bytes io base c _ h (io.flush_received c.env) (io.flush_sent c.env), tt)

  end_transfer-Keeps : (c : Copy io) → IsFaithful io base c → Keeps io base (end_transfer io c)
  unfolding end_transfer
  end_transfer-Keeps c h = elim (Bool-cases (c.buffer.pos == c.buffer.cap && c.buffer.read_done)) [
    | inl e ↦
        rw (e, end_transfer)
          (after_last_flush-Keeps c (io.poll_flush c.env).1 h (
            drop_all c.buffer.pos (take c.buffer.cap c.buffer.buf) (
              let eq : c.buffer.pos ≡ c.buffer.cap = ground arith in
              omega (arith, length-take c.buffer.cap c.buffer.buf))))
    | inr e ↦ rw (e, end_transfer) h
  ]

  copy_round-Keeps : (c : Copy io) → IsFaithful io base c → Keeps io base (copy_round io c)
  unfolding copy_round
  copy_round-Keeps c h = Keeps-and_then io base _ _ (fill_empty-Keeps io base c h) λ d k.
      Keeps-and_then io base (write_loop io (d.buffer.cap - d.buffer.pos) d) (end_transfer io)
        (write_loop-Keeps (d.buffer.cap - d.buffer.pos) d k) end_transfer-Keeps

  after_finish-Keeps :
      (c : Copy io) (p : io.Env × Poll (Unit {0}))
      → io.poll_finish c.env ≡ p
      → IsFaithful io base c
      → Keeps io base (after_finish io c p)
  unfolding after_finish
  after_finish-Keeps c (e, ready u) q h = (
    same_bytes io base c e h (ap (λ x. io.received x.0) (sym q) ∙ io.finish_received c.env)
        (ap (λ x. io.sent x.0) (sym q) ∙ io.finish_sent c.env),
    (refl, inr (c.env, q)),
  )
  after_finish-Keeps c (e, pending) q h = copy_round-Keeps _ (
      same_bytes io base c e h (ap (λ x. io.received x.0) (sym q) ∙ io.finish_received c.env)
        (ap (λ x. io.sent x.0) (sym q) ∙ io.finish_sent c.env))

  -- A poll of a direction keeps what was received equal to what was sent followed by what the buffer
  -- holds, and `amt` the total of the amounts reported modulo 2^64, when `base` bytes were sent before
  -- the first report. A count that it answers with is `amt`, and then all that was received was sent
  -- or the tunnel was told to finish.
  pub poll_copy-Keeps :
      (n : ℕ) (c : Copy io) → IsFaithful io base c → Keeps io base (poll_copy io n c)
  unfolding poll_copy
  poll_copy-Keeps zero c h = h
  poll_copy-Keeps (suc n) c h =
      Keeps-and_then io base _ _ (after_finish-Keeps c (io.poll_finish c.env) refl h)
        (poll_copy-Keeps n)
