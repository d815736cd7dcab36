-- ===== src/Tunnel/RoundTrip.antt =====
-- src/tunnel.rs: socket specs read from text, printed and read again, and their parts.
use plexy.Prelude.{
  ℕ, ◌-◌, ◌^◌, ◌<◌, ◌≡◌, ◌⊎◌, inl, inr, refl, sym, ap, ◌∙◌, false, [], ◌∷◌, ◌++◌, append-nil, none,
  some, Text, codes, arith, length, drop, length-append, take-append_exact, decimal, is_digit,
  AllOf, decimal-AllOf, parse_unsigned-decimal, Bool-cases, ◌==◌, subst,
}
use plexy.Errors.{ok}
use plexy.Nom.{Nom, IResult, done, error, failure, incomplete, view}
use plexy.Nom.Meaning.{read}
use plexy.Tunnel.{SocketSpec}
use plexy.Tunnel.Parser.{socket_spec, host_port, last, local_host}
use plexy.Tunnel.Specs.{
  rsplit_once, without_brackets, as_tuple, spec_host, spec_port, whole_spec, socket_spec_from_str,
  socket_spec_to_string, is_blank,
}
use plexy.Tunnel.Shapes.{Shape, bracketed, named, numbered, local, spec-Shape}
use plexy.Tunnel.Again.{spec_again, name_head, address_head, is_alpha-other, is_digit-others}

pub view-read :
    {K A : Type 0} (r : Text) (a : A) (s : IResult K A) → view s ≡ read r a → s ≡ done r a
view-read r a (done rest a') e = cc
view-read r a (error k i) e = cc
view-read r a (failure k i) e = cc
view-read r a incomplete e = cc

-- No `:` among digits.
rsplit_once-digits : (s : Text) → AllOf is_digit s → rsplit_once b':' s ≡ none
unfolding rsplit_once
rsplit_once-digits [] h = refl
rsplit_once-digits (c ∷ s) (x, h) = rw (rsplit_once-digits s h) (ground (arith, x))

rsplit_once-append :
    (h s : Text) → AllOf is_digit s → rsplit_once b':' (h ++ b':' ∷ s) ≡ some (h, s)
unfolding rsplit_once
rsplit_once-append [] s all = rw (rsplit_once-digits s all) refl
rsplit_once-append (c ∷ h) s all = rw (rsplit_once-append h s all) refl

last-append : (s : Text) (c : ℕ) → last (s ++ c ∷ []) ≡ some c
last-append [] c = refl
last-append (d ∷ []) c = refl
last-append (d ∷ e ∷ s) c = last-append (e ∷ s) c

without_brackets-other : (d : ℕ) (s : Text) → (d == b'[') ≡ false → without_brackets (d ∷ s) ≡ d ∷ s
unfolding without_brackets
without_brackets-other d s e = rw e refl

without_brackets-bracketed : (h : Text) → without_brackets (b'[' ∷ h ++ b']' ∷ []) ≡ h
unfolding without_brackets
without_brackets-bracketed h = rw (last-append (b'[' ∷ h) b']') (
    ap (λ (s : Text). drop 1 s)
      (take-append_exact (length (b'[' ∷ h ++ b']' ∷ []) - 1) (b'[' ∷ h) (b']' ∷ [])
        (omega (arith, length-append h (b']' ∷ [])))))

as_tuple-host_port :
    (h : Text) (n : ℕ) → n < 2 ^ 16 → as_tuple (host_port h n) ≡ some (without_brackets h, n)
unfolding as_tuple
as_tuple-host_port h n lt =
    rw
      (
        rsplit_once-append h (decimal n) (decimal-AllOf n),
        parse_unsigned-decimal (2 ^ 16) n lt,
        as_tuple,
      )
      refl

-- A host stands in front of the port, in brackets or not.
abbrev pub Printed : SocketSpec → Text → ℕ → Type 0
Printed k host port =
    (k.inner ≡ host ++ b':' ∷ decimal port)
    ⊎ (k.inner ≡ (b'[' ∷ host ++ b']' ∷ []) ++ b':' ∷ decimal port)

module _ (nom : Nom) where
  pub from_str-read :
      (s : Text) (k : SocketSpec)
      → socket_spec_from_str nom s ≡ ok k
      → (r : Text) × (view (socket_spec nom s) ≡ read r k)
  unfolding socket_spec_from_str whole_spec
  from_str-read s k e = accepted (socket_spec nom s) e
    where
      accepted :
          (x : IResult nom.Kind SocketSpec)
          → whole_spec nom x ≡ ok k
          → (r : Text) × (view x ≡ read r k)
      accepted (done r a) e = elim (Bool-cases (is_blank r)) [
        | inl b ↦ (r, ground (arith, e, b))
        | inr b ↦ absurd (ground (arith, e, b))
      ]
      accepted (error c i) e = cc
      accepted (failure c i) e = cc
      accepted incomplete e = cc

  plain :
      (k : SocketSpec) (h : Text) (n d : ℕ) (h' : Text)
      → h ≡ d ∷ h'
      → (d == b'[') ≡ false
      → n < 2 ^ 16
      → k ≡ host_port h n
      → (host : Text) × (port : ℕ) × (as_tuple k ≡ some (host, port))
        × (port < 2 ^ 16)
        × Printed k host port
  plain k h n d h' hs ne lt q = (
    h,
    n,
    ap as_tuple q
        ∙ as_tuple-host_port h n lt
        ∙ ap (λ (x : Text). some (x, n))
            (subst (λ (x : Text). without_brackets x ≡ x) (sym hs)
              (without_brackets-other d h' ne)),
    lt,
    inl (ap (λ (x : SocketSpec). x.inner) q),
  )

  Shape-parts :
      (k : SocketSpec)
      → Shape nom k
      → (host : Text) × (port : ℕ) × (as_tuple k ≡ some (host, port))
        × (port < 2 ^ 16)
        × Printed k host port
  Shape-parts k (bracketed h l n e lt q) = (
    h,
    n,
    ap as_tuple q
        ∙ as_tuple-host_port (b'[' ∷ h ++ b']' ∷ []) n lt
        ∙ ap (λ (x : Text). some (x, n)) (without_brackets-bracketed h),
    lt,
    inr (ap (λ (x : SocketSpec). x.inner) q),
  )
  Shape-parts k (named h l n e lt q) =
      let (d, h', hs, x) = name_head nom h l e in plain k h n d h' hs (is_alpha-other nom d x) lt q
  Shape-parts k (numbered h l n e lt q) =
      let (d, h', hs, x) = address_head nom h l e in
      let (ne, _) = is_digit-others nom d x in plain k h n d h' hs ne lt q
  Shape-parts k (local n lt q) = plain k local_host n b'1' (codes "27.0.0.1") refl refl lt q

  -- Where `from_str` accepts a text, neither `as_tuple` nor `host` nor `port` panics on the spec: they
  -- give a host and a port below 2^16, and the spec's text is that host, in brackets or not, a colon
  -- and that port.
  pub as_tuple-from_str :
      (s : Text) (k : SocketSpec)
      → socket_spec_from_str nom s ≡ ok k
      → (host : Text) × (port : ℕ) × (as_tuple k ≡ some (host, port))
        × (spec_host k ≡ some host)
        × (spec_port k ≡ some port)
        × (port < 2 ^ 16)
        × Printed k host port
  unfolding spec_host spec_port
  as_tuple-from_str s k e =
      let (r, x) = from_str-read s k e in
      let (host, port, a, lt, printed) = Shape-parts k (spec-Shape nom s r k x) in
      (host, port, a, rw (a, spec_host) refl, rw (a, spec_port) refl, lt, printed)

  -- What was read from some text is accepted from its own.
  pub from_str-inner :
      (i r : Text) (k : SocketSpec)
      → view (socket_spec nom i) ≡ read r k
      → socket_spec_from_str nom k.inner ≡ ok k
  unfolding socket_spec_from_str whole_spec is_blank
  from_str-inner i r k x =
      let again = spec_again nom i r [] k x refl in
      let again' =
        view-read [] k _
          (subst (λ (t : Text). view (socket_spec nom t) ≡ read [] k) (append-nil k.inner) again) in
      rw again' refl

  -- A spec that `from_str` accepted is printed as a text that `from_str` accepts as the same spec.
  pub from_str-to_string :
      (s : Text) (k : SocketSpec)
      → socket_spec_from_str nom s ≡ ok k
      → socket_spec_from_str nom (socket_spec_to_string k) ≡ ok k
  from_str-to_string s k e = let (r, x) = from_str-read s k e in from_str-inner s r k x
