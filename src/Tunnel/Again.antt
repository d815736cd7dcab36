-- ===== src/Tunnel/Again.antt =====
-- src/tunnel/parser.rs: a socket spec that was read is read again from its text.
use plexy.Prelude.{
  ℕ, ◌^◌, ◌<◌, ◌≡◌, inl, inr, refl, sym, ◌∙◌, true, false, [], ◌∷◌, ◌++◌, append_assoc, Text, codes,
  arith, decimal, is_digit, Bool-cases, ◌==◌, subst,
}
use plexy.Nom.{Nom, view}
use plexy.Nom.Meaning.{read, backtrack, seen_number, front, is_alpha}
use plexy.Nom.Reads.{
  seen_number-decimal, pair-reads, separated_pair-reads, separated_pair-backtrack, delimited-reads,
  delimited-backtrack, map-reads, map-backtrack, alt-first, alt-second, recognize-reads,
}
use plexy.Tunnel.{SocketSpec}
use plexy.Tunnel.Parser.{
  port, host_name, ipv4, ipv6, socket_spec, socket_spec1, socket_spec2, socket_spec3, host_port,
  local_host,
}
use plexy.Tunnel.Hosts.{host_name-Stops, ipv4-Stops, ipv6_inner-Stops, host_name_other, ipv4_other}
use plexy.Tunnel.Shapes.{Shape, bracketed, named, numbered, local, inner, spec-Shape}

module _ (nom : Nom) where
  pub char-reads : (c : ℕ) (s : Text) → view (nom.char c (c ∷ s)) ≡ read s c
  char-reads c s = nom.char-view c (c ∷ s) ∙ ground arith

  tag-reads : (c : ℕ) (s : Text) → view (nom.tag (c ∷ []) (c ∷ s)) ≡ read s (c ∷ [])
  tag-reads c s = nom.tag-view (c ∷ []) (c ∷ s) ∙ ground arith

  port-reads :
      (n : ℕ) (t : Text)
      → n < 2 ^ 16
      → front is_digit t ≡ []
      → view (port nom (decimal n ++ t)) ≡ read t n
  unfolding port
  port-reads n t k e = nom.u16-view (decimal n ++ t) ∙ seen_number-decimal (2 ^ 16) n t k e

  spec3_again :
      (h l t : Text) (n : ℕ)
      → view (inner nom (h ++ b']' ∷ l)) ≡ read (b']' ∷ l) h
      → n < 2 ^ 16
      → front is_digit t ≡ []
      → view (socket_spec3 nom (b'[' ∷ h ++ b']' ∷ b':' ∷ (decimal n ++ t)))
        ≡ read t (host_port (b'[' ∷ h ++ b']' ∷ []) n)
  unfolding socket_spec3 ipv6
  spec3_again h l t n e k f =
      map-reads nom _ (λ (p : Text × ℕ). host_port (b'[' ∷ p.0 ++ b']' ∷ []) p.1) _ t (h, n)
        (separated_pair-reads nom (ipv6 nom) (port nom) (nom.char b':') _ (b':' ∷ (decimal n ++ t))
          (decimal n ++ t) t h b':' n
          (delimited-reads nom (nom.tag (codes "[")) (inner nom) (nom.tag (codes "]")) _
            (h ++ b']' ∷ b':' ∷ (decimal n ++ t)) (b']' ∷ b':' ∷ (decimal n ++ t))
            (b':' ∷ (decimal n ++ t)) (codes "[") (codes "]") h (tag-reads b'[' _)
            (ipv6_inner-Stops nom h b']' l (b':' ∷ (decimal n ++ t)) h e) (tag-reads b']' _))
          (char-reads b':' _) (port-reads n t k f))

  spec3_other :
      (d : ℕ) (s : Text) → (d == b'[') ≡ false → view (socket_spec3 nom (d ∷ s)) ≡ backtrack
  unfolding socket_spec3 ipv6
  spec3_other d s e = map-backtrack nom _ _ (d ∷ s) (
      separated_pair-backtrack nom (ipv6 nom) (port nom) (nom.char b':') (d ∷ s) (
        delimited-backtrack nom (nom.tag (codes "[")) (inner nom) (nom.tag (codes "]")) (d ∷ s)
          (nom.tag-view (codes "[") (d ∷ s) ∙ rw e refl)))

  spec2_again :
      (h t : Text) (n : ℕ)
      → view (nom.alt (host_name nom) (ipv4 nom) (h ++ b':' ∷ (decimal n ++ t)))
        ≡ read (b':' ∷ (decimal n ++ t)) h
      → n < 2 ^ 16
      → front is_digit t ≡ []
      → view (socket_spec2 nom (h ++ b':' ∷ (decimal n ++ t))) ≡ read t (host_port h n)
  unfolding socket_spec2
  spec2_again h t n e k f =
      map-reads nom _ (λ (p : Text × ℕ). host_port p.0 p.1) _ t (h, n)
        (separated_pair-reads nom (nom.alt (host_name nom) (ipv4 nom)) (port nom) (nom.char b':') _
          (b':' ∷ (decimal n ++ t)) (decimal n ++ t) t h b':' n e (char-reads b':' _)
          (port-reads n t k f))

  -- A host that starts like a name or a number is no bracketed one.
  unbracketed :
      (h t : Text) (n d : ℕ) (h' : Text)
      → h ≡ d ∷ h'
      → (d == b'[') ≡ false
      → view (nom.alt (host_name nom) (ipv4 nom) (h ++ b':' ∷ (decimal n ++ t)))
        ≡ read (b':' ∷ (decimal n ++ t)) h
      → n < 2 ^ 16
      → front is_digit t ≡ []
      → view (socket_spec nom (h ++ b':' ∷ (decimal n ++ t))) ≡ read t (host_port h n)
  unfolding socket_spec
  unbracketed h t n d h' hs ne e k f =
      alt-second nom _ _ _ (
        subst (λ (x : Text). view (socket_spec3 nom (x ++ b':' ∷ (decimal n ++ t))) ≡ backtrack)
          (sym hs) (spec3_other d (h' ++ b':' ∷ (decimal n ++ t)) ne))
      ∙ alt-first nom (socket_spec2 nom) (socket_spec1 nom) _ t (host_port h n)
          (spec2_again h t n e k f)

  -- What starts a name, what starts an address.
  pub name_head :
      (h l : Text)
      → view (host_name nom (h ++ b':' ∷ l)) ≡ read (b':' ∷ l) h
      → (d : ℕ) × (h' : Text) × (h ≡ d ∷ h') × (is_alpha d ≡ true)
  name_head [] l e = absurd (let q = sym (host_name_other nom b':' l refl) ∙ e in cc)
  name_head (d ∷ h) l e = elim (Bool-cases (is_alpha d)) [
    | inl x ↦ (d, h, refl, x)
    | inr x ↦ absurd (let q = sym (host_name_other nom d (h ++ b':' ∷ l) x) ∙ e in cc)
  ]

  pub address_head :
      (h l : Text)
      → view (ipv4 nom (h ++ b':' ∷ l)) ≡ read (b':' ∷ l) h
      → (d : ℕ) × (h' : Text) × (h ≡ d ∷ h') × (is_digit d ≡ true)
  address_head [] l e = absurd (let q = sym (ipv4_other nom b':' l refl) ∙ e in cc)
  address_head (d ∷ h) l e = elim (Bool-cases (is_digit d)) [
    | inl x ↦ (d, h, refl, x)
    | inr x ↦ absurd (let q = sym (ipv4_other nom d (h ++ b':' ∷ l) x) ∙ e in cc)
  ]

  pub is_alpha-other : (d : ℕ) → is_alpha d ≡ true → (d == b'[') ≡ false
  is_alpha-other d e = ground (arith, e)

  pub is_digit-others : (d : ℕ) → is_digit d ≡ true → ((d == b'[') ≡ false) × (is_alpha d ≡ false)
  is_digit-others d e = ground (arith, e)

  name_again :
      (h l t : Text) (n : ℕ)
      → view (host_name nom (h ++ b':' ∷ l)) ≡ read (b':' ∷ l) h
      → n < 2 ^ 16
      → front is_digit t ≡ []
      → view (socket_spec nom (h ++ b':' ∷ (decimal n ++ t))) ≡ read t (host_port h n)
  name_again h l t n e k f =
      let (d, h', hs, x) = name_head h l e in
      unbracketed h t n d h' hs (is_alpha-other d x)
        (alt-first nom (host_name nom) (ipv4 nom) _ (b':' ∷ (decimal n ++ t)) h
          (host_name-Stops nom h b':' l (decimal n ++ t) h e))
        k f

  address_again :
      (h l t : Text) (n : ℕ)
      → view (ipv4 nom (h ++ b':' ∷ l)) ≡ read (b':' ∷ l) h
      → n < 2 ^ 16
      → front is_digit t ≡ []
      → view (socket_spec nom (h ++ b':' ∷ (decimal n ++ t))) ≡ read t (host_port h n)
  address_again h l t n e k f =
      let (d, h', hs, x) = address_head h l e in
      let (ne, na) = is_digit-others d x in
      unbracketed h t n d h' hs ne
        (alt-second nom (host_name nom) (ipv4 nom) _ (
            subst (λ (s : Text). view (host_name nom (s ++ b':' ∷ (decimal n ++ t))) ≡ backtrack)
              (sym hs) (host_name_other nom d (h' ++ b':' ∷ (decimal n ++ t)) na))
          ∙ ipv4-Stops nom h b':' l (decimal n ++ t) h e)
        k f

  local-reads : view (ipv4 nom (codes "127.0.0.1:")) ≡ read (codes ":") local_host
  unfolding ipv4
  local-reads =
      recognize-reads nom _ _ (codes ":") ((127, b'.'), ((0, b'.'), ((0, b'.'), 1)))
        (pair-reads nom _ _ _ (codes "0.0.1:") _ (127, b'.') ((0, b'.'), ((0, b'.'), 1))
          (dotted-reads 127 (codes "127.0.0.1:") (codes "0.0.1:") refl)
          (pair-reads nom _ _ _ (codes "0.1:") _ (0, b'.') ((0, b'.'), 1)
            (dotted-reads 0 (codes "0.0.1:") (codes "0.1:") refl)
            (pair-reads nom _ _ _ (codes "1:") _ (0, b'.') 1
              (dotted-reads 0 (codes "0.1:") (codes "1:") refl) (nom.u8-view (codes "1:")))))
    where
      dotted-reads :
          (n : ℕ) (i j : Text)
          → seen_number (2 ^ 8) i ≡ read (b'.' ∷ j) n
          → view (nom.pair nom.u8 (nom.char b'.') i) ≡ read j (n, b'.')
      dotted-reads n i j e =
          pair-reads nom _ _ i (b'.' ∷ j) j n b'.' (nom.u8-view i ∙ e) (char-reads b'.' j)

  bracket_text : (h u t : Text) → ((h ++ b']' ∷ []) ++ u) ++ t ≡ h ++ b']' ∷ (u ++ t)
  bracket_text h u t = append_assoc (h ++ b']' ∷ []) u t ∙ append_assoc h (b']' ∷ []) (u ++ t)

  Shape-again :
      (k : SocketSpec) (t : Text)
      → Shape nom k
      → front is_digit t ≡ []
      → view (socket_spec nom (k.inner ++ t)) ≡ read t k
  unfolding socket_spec
  Shape-again k t (bracketed h l n e lt q) f = rw q (
      subst
        (λ (s : Text).
          view (socket_spec nom (b'[' ∷ s)) ≡ read t (host_port (b'[' ∷ h ++ b']' ∷ []) n))
        (sym (bracket_text h (b':' ∷ decimal n) t))
        (alt-first nom (socket_spec3 nom) _ _ t (host_port (b'[' ∷ h ++ b']' ∷ []) n)
          (spec3_again h l t n e lt f)))
  Shape-again k t (named h l n e lt q) f =
      rw (q, append_assoc h (b':' ∷ decimal n) t) (name_again h l t n e lt f)
  Shape-again k t (numbered h l n e lt q) f =
      rw (q, append_assoc h (b':' ∷ decimal n) t) (address_again h l t n e lt f)
  Shape-again k t (local n lt q) f = rw q (address_again local_host [] t n local-reads lt f)

  -- What was read from some text is read from its own text, up to what follows.
  pub spec_again :
      (i r t : Text) (k : SocketSpec)
      → view (socket_spec nom i) ≡ read r k
      → front is_digit t ≡ []
      → view (socket_spec nom (k.inner ++ t)) ≡ read t k
  spec_again i r t k e f = Shape-again k t (spec-Shape nom i r k e) f
