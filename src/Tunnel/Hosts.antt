-- ===== src/Tunnel/Hosts.antt =====
-- src/tunnel/parser.rs: where the parsers of host names and addresses stop.
use plexy.Prelude.{
  ℕ, ◌^◌, ◌≡◌, refl, sym, ap, ◌∙◌, Bool, false, [], ◌∷◌, ◌++◌, Text, codes, arith, is_digit,
}
use plexy.Nom.{Nom, view}
use plexy.Nom.Meaning.{
  Seen, read, backtrack, seen_map, seen_char, seen_tag, seen_while_m_n, seen_verify, is_alpha,
  Leaves, Consumes, front_upto, behind_upto,
}
use plexy.Nom.Stops.{Stops}
use plexy.Nom.Basics.{
  seen_while-Stops, seen_while-Leaves, seen_while_m_n-Stops, seen_while_m_n-Leaves,
  seen_alpha1-Stops, seen_alpha1-Leaves, seen_number-Stops, seen_number-Leaves, seen_char-Stops,
  seen_char-Leaves,
}
use plexy.Nom.Combined.{seen_map-read, seen_recognize_whole, seen_verify-read}
use plexy.Nom.Listed.{HeadOnly, Reads}
use plexy.Nom.Reads.{pair-backtrack, recognize-backtrack, Stops-cong, Leaves-cong, Consumes-cong}
use plexy.Nom.Lifted.{
  pair-Stops, pair-Leaves, recognize-Stops, verify-Stops, separated_list1-Stops,
  separated_list1-Leaves,
}
use plexy.Tunnel.Parser.{
  host_name, ipv4, ipv6_segment, is_hostname_char, is_ascii_hexdigit, ends_well,
}

-- A tag of one character.
abbrev pub seen_one : ℕ → Text → Seen Text
seen_one t i = seen_map (λ x. x ∷ []) (seen_char t i)

pub seen_tag-one : (t : ℕ) (i : Text) → seen_tag (t ∷ []) i ≡ seen_one t i
seen_tag-one t [] = refl
seen_tag-one t (c ∷ s) = ground arith

seen_one-Stops : (t : ℕ) → Stops (seen_one t)
seen_one-Stops t h c r r' a e =
    let (x, p, q) = seen_map-read (λ (x : ℕ). x ∷ []) (seen_char t (h ++ c ∷ r)) e in
    rw (seen_char-Stops t h c r r' x p) (ap (λ (u : Text). read (c ∷ r') u) q)

pub seen_one-Leaves : (t : ℕ) → Leaves (seen_one t)
seen_one-Leaves t i rest a e =
    let (x, p, q) = seen_map-read (λ (x : ℕ). x ∷ []) (seen_char t i) e in
    seen_char-Leaves t i rest x p

seen_one-Consumes : (t : ℕ) → Consumes (seen_one t)
seen_one-Consumes t [] rest a e = cc
seen_one-Consumes t (c ∷ s) rest a e = ground (arith, e)

seen_one-HeadOnly : (t : ℕ) → HeadOnly (seen_one t)
seen_one-HeadOnly t c r r' e = ground (arith, e)

seen_while_m_n-Reads : (n : ℕ) (p : ℕ → Bool) → Reads (seen_while_m_n 0 n p)
seen_while_m_n-Reads n p i = (behind_upto n p i, front_upto n p i, ground arith)

module _ (nom : Nom) where
  parts-Leaves : Leaves (λ i. view (nom.pair nom.alpha1 (nom.take_while is_hostname_char) i))
  parts-Leaves =
      pair-Leaves nom _ _ (Leaves-cong nom.alpha1-view seen_alpha1-Leaves)
        (Leaves-cong (nom.take_while-view is_hostname_char) (seen_while-Leaves is_hostname_char))

  pub host_name-Stops : Stops (λ i. view (host_name nom i))
  unfolding host_name
  host_name-Stops = verify-Stops nom _ ends_well (
      recognize-Stops nom _ (
        pair-Stops nom _ _ (Leaves-cong nom.alpha1-view seen_alpha1-Leaves)
          (Leaves-cong (nom.take_while-view is_hostname_char) (seen_while-Leaves is_hostname_char))
          (Stops-cong nom.alpha1-view seen_alpha1-Stops)
          (Stops-cong (nom.take_while-view is_hostname_char) (seen_while-Stops is_hostname_char))))

  u8-Stops : Stops (λ i. view (nom.u8 i))
  u8-Stops = Stops-cong nom.u8-view (seen_number-Stops (2 ^ 8))

  u8-Leaves : Leaves (λ i. view (nom.u8 i))
  u8-Leaves = Leaves-cong nom.u8-view (seen_number-Leaves (2 ^ 8))

  dotted-Leaves : Leaves (λ i. view (nom.pair nom.u8 (nom.char b'.') i))
  dotted-Leaves =
      pair-Leaves nom _ _ u8-Leaves (Leaves-cong (nom.char-view b'.') (seen_char-Leaves b'.'))

  dotted-Stops : Stops (λ i. view (nom.pair nom.u8 (nom.char b'.') i))
  dotted-Stops =
      pair-Stops nom _ _ u8-Leaves (Leaves-cong (nom.char-view b'.') (seen_char-Leaves b'.'))
        u8-Stops (Stops-cong (nom.char-view b'.') (seen_char-Stops b'.'))

  pub ipv4-Leaves : Leaves (λ i. view (
      nom.pair
        (nom.pair nom.u8 (nom.char b'.'))
        (nom.pair
          (nom.pair nom.u8 (nom.char b'.'))
          (nom.pair (nom.pair nom.u8 (nom.char b'.')) nom.u8))
        i))
  ipv4-Leaves =
      let l1 = pair-Leaves nom _ _ dotted-Leaves u8-Leaves in
      pair-Leaves nom _ _ dotted-Leaves (pair-Leaves nom _ _ dotted-Leaves l1)

  pub ipv4-Stops : Stops (λ i. view (ipv4 nom i))
  unfolding ipv4
  ipv4-Stops =
      let l1 = pair-Leaves nom _ _ dotted-Leaves u8-Leaves in
      let s1 = pair-Stops nom _ _ dotted-Leaves u8-Leaves dotted-Stops u8-Stops in
      let l2 = pair-Leaves nom _ _ dotted-Leaves l1 in
      let s2 = pair-Stops nom _ _ dotted-Leaves l1 dotted-Stops s1 in
      recognize-Stops nom _ (pair-Stops nom _ _ dotted-Leaves l2 dotted-Stops s2)

  colon-same : (i : Text) → view (nom.tag (codes ":") i) ≡ seen_one b':' i
  colon-same i = nom.tag-view (codes ":") i ∙ seen_tag-one b':' i

  colon-HeadOnly : HeadOnly (λ i. view (nom.tag (codes ":") i))
  colon-HeadOnly c r r' e =
      colon-same (c ∷ r') ∙ seen_one-HeadOnly b':' c r r' (sym (colon-same (c ∷ r)) ∙ e)

  segment-same : (i : Text) → view (ipv6_segment nom i) ≡ seen_while_m_n 0 4 is_ascii_hexdigit i
  unfolding ipv6_segment
  segment-same i = nom.take_while_m_n-view 0 4 is_ascii_hexdigit i

  segment-Reads : Reads (λ i. view (ipv6_segment nom i))
  segment-Reads i =
      let (r, a, e) = seen_while_m_n-Reads 4 is_ascii_hexdigit i in (r, a, segment-same i ∙ e)

  -- The part of `ipv6` between the brackets.
  pub ipv6_inner-Stops :
      Stops
        (λ i. view (nom.recognize (nom.separated_list1 (nom.tag (codes ":")) (ipv6_segment nom)) i))
  ipv6_inner-Stops = recognize-Stops nom _ (
      separated_list1-Stops nom _ _ (Consumes-cong colon-same (seen_one-Consumes b':'))
        (Leaves-cong colon-same (seen_one-Leaves b':'))
        (Leaves-cong segment-same (seen_while_m_n-Leaves 4 is_ascii_hexdigit))
        (Stops-cong colon-same (seen_one-Stops b':'))
        (Stops-cong segment-same (seen_while_m_n-Stops 4 is_ascii_hexdigit)) colon-HeadOnly
        segment-Reads)

  segments-Leaves :
      Leaves (λ i. view (nom.separated_list1 (nom.tag (codes ":")) (ipv6_segment nom) i))
  segments-Leaves =
      separated_list1-Leaves nom _ _ (Consumes-cong colon-same (seen_one-Consumes b':'))
        (Leaves-cong colon-same (seen_one-Leaves b':'))
        (Leaves-cong segment-same (seen_while_m_n-Leaves 4 is_ascii_hexdigit))

  -- What the parsers read stands before the rest.
  pub host_name_whole : (i r t : Text) → view (host_name nom i) ≡ read r t → i ≡ t ++ r
  unfolding host_name
  host_name_whole i r t e =
      let (p, q) =
        seen_verify-read (λ i. view (nom.alpha1 i)) ends_well _
          (sym (nom.verify-view _ ends_well i) ∙ e) in
      seen_recognize_whole _ i r t parts-Leaves (sym (nom.recognize-view _ i) ∙ p)

  pub ipv4_whole : (i r t : Text) → view (ipv4 nom i) ≡ read r t → i ≡ t ++ r
  unfolding ipv4
  ipv4_whole i r t e = seen_recognize_whole _ i r t ipv4-Leaves (sym (nom.recognize-view _ i) ∙ e)

  pub ipv6_inner_whole :
      (i r t : Text)
      → view (nom.recognize (nom.separated_list1 (nom.tag (codes ":")) (ipv6_segment nom)) i)
        ≡ read r t
      → i ≡ t ++ r
  ipv6_inner_whole i r t e =
      seen_recognize_whole _ i r t segments-Leaves (sym (nom.recognize-view _ i) ∙ e)

  -- A host name starts with a letter, an address with a digit.
  pub host_name_other :
      (d : ℕ) (s : Text) → is_alpha d ≡ false → view (host_name nom (d ∷ s)) ≡ backtrack
  unfolding host_name
  host_name_other d s e =
      let one : view (nom.alpha1 (d ∷ s)) ≡ backtrack = nom.alpha1-view (d ∷ s) ∙ rw e refl in
      nom.verify-view _ ends_well (d ∷ s)
      ∙ ap (λ (x : Seen Text). seen_verify ends_well x)
          (recognize-backtrack nom _ (d ∷ s) (pair-backtrack nom _ _ (d ∷ s) one))

  pub ipv4_other : (d : ℕ) (s : Text) → is_digit d ≡ false → view (ipv4 nom (d ∷ s)) ≡ backtrack
  unfolding ipv4
  ipv4_other d s e =
      let one : view (nom.u8 (d ∷ s)) ≡ backtrack = nom.u8-view (d ∷ s) ∙ rw e refl in
      recognize-backtrack nom _ (d ∷ s)
        (pair-backtrack nom _ _ (d ∷ s) (pair-backtrack nom _ _ (d ∷ s) one))
