-- ===== src/Aio/Faithful/Fill.antt =====
-- src/aio.rs, `poll_copy`: reading into the buffer.
use plexy.Prelude.{
  ℕ, ◌+◌, ◌-◌, ◌≤◌, ◌≡◌, ap, sym, ◌∙◌, inl, inr, ◌&&◌, not, List, ◌++◌, append_assoc, append-nil,
  arith, length, take, drop, take-append_exact, drop-append, drop_all, length-append, length-take,
  length-drop, ◌==◌, Bool-cases,
}
use plexy.Aio.Streams.{Streams, Poll, IoResult, ready, pending, io_ok, io_err, bytes_read}
use plexy.Aio.Buffer.{
  Copy, unwritten, put_slice, after_read, poll_fill_buf, fill_empty, after_fill, after_idle_flush,
}
use plexy.Aio.Faithful.{IsFaithful, Keeps, Keeps-if}

length-take_le : (n : ℕ) (xs : List ℕ) → n ≤ length xs → length (take n xs) ≡ n
length-take_le n xs h = omega (arith, length-take n xs)

-- The filled part of a buffer after `bs` was read behind it.
take-put_slice :
    (cap : ℕ) (bs buf : List ℕ)
    → cap ≤ length buf
    → take (cap + length bs) (put_slice cap bs buf) ≡ take cap buf ++ bs
take-put_slice cap bs buf h =
    take-append_exact (cap + length bs) (take cap buf ++ bs) (drop (cap + length bs) buf)
      (omega (arith, length-append (take cap buf) bs, length-take_le cap buf h))

pub length-put_slice :
    (cap : ℕ) (bs buf : List ℕ)
    → cap + length bs ≤ length buf
    → length (put_slice cap bs buf) ≡ length buf
length-put_slice cap bs buf h = omega (
  arith,
  length-append (take cap buf ++ bs) (drop (cap + length bs) buf),
  length-append (take cap buf) bs,
  length-take cap buf,
  length-drop (cap + length bs) buf,
)

unwritten-put_slice :
    (pos cap : ℕ) (bs buf : List ℕ)
    → pos ≤ cap
    → cap ≤ length buf
    → drop pos (take (cap + length bs) (put_slice cap bs buf)) ≡ drop pos (take cap buf) ++ bs
unwritten-put_slice pos cap bs buf h k =
    ap (drop pos) (take-put_slice cap bs buf k)
    ∙ drop-append pos (take cap buf) bs (omega (arith, length-take_le cap buf k))

module _ (io : Streams) (base : ℕ) where
  -- What is known after a read into the room that is left.
  pub record IsRead (c : Copy io) (e : io.Env) (r : Poll (IoResult (List ℕ))) : Type 0 where
    pub room : c.buffer.cap + length (bytes_read r) ≤ length c.buffer.buf
    pub received : io.received e ≡ io.received c.env ++ bytes_read r
    pub sent : io.sent e ≡ io.sent c.env

  poll_read-IsRead :
      (c : Copy io)
      → IsFaithful io base c
      → let p = io.poll_read (length c.buffer.buf - c.buffer.cap) c.env in IsRead c p.0 p.1
  poll_read-IsRead c h =
      let n = length c.buffer.buf - c.buffer.cap in
      record {
        room = omega (arith, io.read_fits n c.env, h.fits);
        received = io.read_received n c.env;
        sent = io.read_sent n c.env;
      }

  module _ (c : Copy io) (e : io.Env) where
    grown :
        (r : Poll (IoResult (List ℕ)))
        → IsFaithful io base c
        → IsRead c e r
        → io.received e ≡ io.sent e ++ (unwritten c.buffer ++ bytes_read r)
    grown r h k =
        k.received
        ∙ ap (λ (z : List ℕ). z ++ bytes_read r) h.stream
        ∙ append_assoc (io.sent c.env) (unwritten c.buffer) (bytes_read r)
        ∙ ap (λ (z : List ℕ). z ++ (unwritten c.buffer ++ bytes_read r)) (sym k.sent)

    -- A new environment that has received and sent the same.
    pub same_bytes :
        IsFaithful io base c
        → io.received e ≡ io.received c.env
        → io.sent e ≡ io.sent c.env
        → IsFaithful io base (record c { env = e })
    same_bytes h p q = record {
      ordered = h.ordered;
      fits = h.fits;
      stream = p ∙ h.stream ∙ ap (λ (z : List ℕ). z ++ unwritten c.buffer) (sym q);
      reported = ap (λ (z : List ℕ). length z) q ∙ h.reported;
      counted = h.counted;
    }

    after_read-IsFaithful :
        (r : Poll (IoResult (List ℕ)))
        → IsFaithful io base c
        → IsRead c e r
        → IsFaithful io base (after_read io c (e, r)).0
    unfolding after_read
    after_read-IsFaithful pending h k = same_bytes h (k.received ∙ append-nil _) k.sent
    after_read-IsFaithful (ready (io_err x)) h k = same_bytes h (k.received ∙ append-nil _) k.sent
    after_read-IsFaithful (ready (io_ok bs)) h k = record {
      ordered = omega (arith, h.ordered);
      fits = omega (arith, length-put_slice c.buffer.cap bs c.buffer.buf k.room, k.room);
      stream =
          grown (ready (io_ok bs)) h k
          ∙ ap (λ (z : List ℕ). io.sent e ++ z)
              (sym
                (unwritten-put_slice c.buffer.pos c.buffer.cap bs c.buffer.buf h.ordered h.fits));
      reported = ap (λ (z : List ℕ). length z) k.sent ∙ h.reported;
      counted = h.counted;
    }

  pub poll_fill_buf-IsFaithful :
      (c : Copy io) → IsFaithful io base c → IsFaithful io base (poll_fill_buf io c).0
  unfolding poll_fill_buf
  poll_fill_buf-IsFaithful c h = after_read-IsFaithful c _ _ h (poll_read-IsRead c h)

  after_idle_flush-Keeps :
      (c : Copy io) (r : Poll (IoResult (Unit {0})))
      → IsFaithful io base c
      → Keeps io base (after_idle_flush io c ((io.poll_flush c.env).0, r))
  unfolding after_idle_flush
  after_idle_flush-Keeps c pending h =
      (same_bytes c _ h (io.flush_received c.env) (io.flush_sent c.env), tt)
  after_idle_flush-Keeps c (ready (io_err x)) h =
      (same_bytes c _ h (io.flush_received c.env) (io.flush_sent c.env), tt)
  after_idle_flush-Keeps c (ready (io_ok x)) h =
      let k = same_bytes c _ h (io.flush_received c.env) (io.flush_sent c.env) in
      (
        record {
          ordered = k.ordered;
          fits = k.fits;
          stream = k.stream;
          reported = k.reported;
          counted = k.counted;
        },
        tt,
      )

  after_fill-Keeps :
      (c : Copy io) (r : Poll (IoResult (Unit {0})))
      → IsFaithful io base c
      → Keeps io base (after_fill io (c, r))
  unfolding after_fill
  after_fill-Keeps c (ready (io_ok x)) h = h
  after_fill-Keeps c (ready (io_err x)) h = (h, tt)
  after_fill-Keeps c pending h =
      Keeps-if io base c.buffer.need_flush _ _ (after_idle_flush-Keeps c (io.poll_flush c.env).1 h)
        (h, tt)

  pub fill_empty-Keeps : (c : Copy io) → IsFaithful io base c → Keeps io base (fill_empty io c)
  unfolding fill_empty
  fill_empty-Keeps c h =
      elim (Bool-cases (c.buffer.pos == c.buffer.cap && not c.buffer.read_done)) [
        | inl e ↦
            rw (e, fill_empty)
              (after_fill-Keeps _ _ (
                poll_fill_buf-IsFaithful _ (record {
                  ordered = omega arith;
                  fits = omega arith;
                  stream =
                      h.stream
                      ∙ ap (λ (z : List ℕ). io.sent c.env ++ z)
                          (drop_all c.buffer.pos (take c.buffer.cap c.buffer.buf) (
                            let eq : c.buffer.pos ≡ c.buffer.cap = ground arith in
                            omega (arith, length-take c.buffer.cap c.buffer.buf)));
                  reported = h.reported;
                  counted = h.counted;
                })))
        | inr e ↦ rw (e, fill_empty) h
      ]
