-- ===== src/Tunnel/Shapes.antt =====
-- src/tunnel/parser.rs: the four forms of a socket spec that was read.
use plexy.Prelude.{ℕ, ◌^◌, ◌<◌, ◌≡◌, inl, inr, sym, ◌∙◌, [], ◌∷◌, ◌++◌, Text, codes, arith, subst}
use plexy.Nom.{Nom, IResult, view}
use plexy.Nom.Meaning.{read, seen_char}
use plexy.Nom.Basics.{seen_number_lt}
use plexy.Nom.Combined.{seen_map-read}
use plexy.Nom.Reads.{seen_alt-read, seen_separated-read, seen_delimited-read}
use plexy.Tunnel.{SocketSpec}
use plexy.Tunnel.Parser.{
  port, host_name, ipv4, ipv6, ipv6_segment, socket_spec, socket_spec1, socket_spec2, socket_spec3,
  host_port, local_host,
}
use plexy.Tunnel.Hosts.{seen_one, seen_tag-one, host_name_whole, ipv4_whole, ipv6_inner_whole}

pub seen_char_cons : (t : ℕ) (i r : Text) (a : ℕ) → seen_char t i ≡ read r a → i ≡ t ∷ r
seen_char_cons t [] r a e = cc
seen_char_cons t (c ∷ s) r a e = ground (arith, e)

pub seen_one_cons : (t : ℕ) (i r a : Text) → seen_one t i ≡ read r a → i ≡ t ∷ r
seen_one_cons t i r a e =
    let (x, p, q) = seen_map-read (λ (x : ℕ). x ∷ []) (seen_char t i) e in seen_char_cons t i r x p

module _ (nom : Nom) where
  abbrev pub inner : Text → IResult nom.Kind Text
  inner = nom.recognize (nom.separated_list1 (nom.tag (codes ":")) (ipv6_segment nom))

  -- How a spec was read: its form, the host before the character behind it, and the port.
  pub data Shape (k : SocketSpec) : Type 0 where
    bracketed :
        (h l : Text) (n : ℕ)
        → view (inner (h ++ b']' ∷ l)) ≡ read (b']' ∷ l) h
        → n < 2 ^ 16
        → k ≡ host_port (b'[' ∷ h ++ b']' ∷ []) n
        → Shape k
    named :
        (h l : Text) (n : ℕ)
        → view (host_name nom (h ++ b':' ∷ l)) ≡ read (b':' ∷ l) h
        → n < 2 ^ 16
        → k ≡ host_port h n
        → Shape k
    numbered :
        (h l : Text) (n : ℕ)
        → view (ipv4 nom (h ++ b':' ∷ l)) ≡ read (b':' ∷ l) h
        → n < 2 ^ 16
        → k ≡ host_port h n
        → Shape k
    local : (n : ℕ) → n < 2 ^ 16 → k ≡ host_port local_host n → Shape k

  port_lt : (i r : Text) (n : ℕ) → view (port nom i) ≡ read r n → n < 2 ^ 16
  unfolding port
  port_lt i r n e = seen_number_lt (2 ^ 16) i r n (sym (nom.u16-view i) ∙ e)

  colon_cons : (c : ℕ) (i r : Text) (a : ℕ) → view (nom.char c i) ≡ read r a → i ≡ c ∷ r
  colon_cons c i r a e = seen_char_cons c i r a (sym (nom.char-view c i) ∙ e)

  tag_cons : (c : ℕ) (i r a : Text) → view (nom.tag (c ∷ []) i) ≡ read r a → i ≡ c ∷ r
  tag_cons c i r a e =
      seen_one_cons c i r a (sym (seen_tag-one c i) ∙ sym (nom.tag-view (c ∷ []) i) ∙ e)

  spec1-Shape : (i r : Text) (k : SocketSpec) → view (socket_spec1 nom i) ≡ read r k → Shape k
  unfolding socket_spec1
  spec1-Shape i r k e =
      let (n, p, q) =
        seen_map-read (host_port local_host) (view (port nom i))
          (sym (nom.map-view (port nom) (host_port local_host) i) ∙ e) in
      local n (port_lt i r n p) (sym q)

  spec2-Shape : (i r : Text) (k : SocketSpec) → view (socket_spec2 nom i) ≡ read r k → Shape k
  unfolding socket_spec2
  spec2-Shape i r k e =
      let hosts = nom.alt (host_name nom) (ipv4 nom) in
      let (p, x, q) =
        seen_map-read (λ (p : Text × ℕ). host_port p.0 p.1) _ (sym (nom.map-view _ _ i) ∙ e) in
      let (rest, after, c, u, v, w) =
        seen_separated-read (view (hosts i)) (λ j. view (nom.char b':' j)) (λ j. view (port nom j))
          r p (sym (nom.separated_pair-view hosts (nom.char b':') (port nom) i) ∙ x) in
      let behind : rest ≡ b':' ∷ after = colon_cons b':' rest after c v in
      elim (seen_alt-read (view (host_name nom i)) (view (ipv4 nom i)) rest p.0
        (sym (nom.alt-view (host_name nom) (ipv4 nom) i) ∙ u)) [
          | inl y ↦
              named p.0 after p.1
                (subst (λ (t : Text). view (host_name nom (p.0 ++ t)) ≡ read t p.0) behind
                  (subst (λ (t : Text). view (host_name nom t) ≡ read rest p.0)
                    (host_name_whole nom i rest p.0 y) y))
                (port_lt after r p.1 w) (sym q)
          | inr (z, y) ↦
              numbered p.0 after p.1
                (subst (λ (t : Text). view (ipv4 nom (p.0 ++ t)) ≡ read t p.0) behind
                  (subst (λ (t : Text). view (ipv4 nom t) ≡ read rest p.0)
                    (ipv4_whole nom i rest p.0 y) y))
                (port_lt after r p.1 w) (sym q)
        ]

  spec3-Shape : (i r : Text) (k : SocketSpec) → view (socket_spec3 nom i) ≡ read r k → Shape k
  unfolding socket_spec3 ipv6
  spec3-Shape i r k e =
      let (p, x, q) =
        seen_map-read (λ (p : Text × ℕ). host_port (b'[' ∷ p.0 ++ b']' ∷ []) p.1) _
          (sym (nom.map-view _ _ i) ∙ e) in
      let (rest, after, c, u, v, w) =
        seen_separated-read (view (ipv6 nom i)) (λ j. view (nom.char b':' j))
          (λ j. view (port nom j)) r p
          (sym (nom.separated_pair-view (ipv6 nom) (nom.char b':') (port nom) i) ∙ x) in
      let (begin, close, a, b, u1, u2, u3) =
        seen_delimited-read (view (nom.tag (codes "[") i)) (λ j. view (inner j))
          (λ j. view (nom.tag (codes "]") j)) rest p.0
          (sym (nom.delimited-view (nom.tag (codes "[")) inner (nom.tag (codes "]")) i) ∙ u) in
      bracketed p.0 rest p.1
        (subst (λ (t : Text). view (inner (p.0 ++ t)) ≡ read t p.0) (tag_cons b']' close rest b u3)
          (subst (λ (t : Text). view (inner t) ≡ read close p.0)
            (ipv6_inner_whole nom begin close p.0 u2) u2))
        (port_lt after r p.1 w) (sym q)

  pub spec-Shape : (i r : Text) (k : SocketSpec) → view (socket_spec nom i) ≡ read r k → Shape k
  unfolding socket_spec
  spec-Shape i r k e =
      elim (seen_alt-read (view (socket_spec3 nom i)) _ r k (sym (nom.alt-view _ _ i) ∙ e)) [
        | inl x ↦ spec3-Shape i r k x
        | inr (_, y) ↦
            elim (seen_alt-read (view (socket_spec2 nom i)) (view (socket_spec1 nom i)) r k
              (sym (nom.alt-view (socket_spec2 nom) (socket_spec1 nom) i) ∙ y)) [
                | inl x ↦ spec2-Shape i r k x
                | inr (_, x) ↦ spec1-Shape i r k x
              ]
      ]
