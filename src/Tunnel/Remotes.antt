-- ===== src/Tunnel/Remotes.antt =====
-- src/tunnel.rs and src/tunnel/parser.rs: the remotes of a tunnel, printed and read again.
use plexy.Prelude.{
  ℕ, ◌^◌, ◌≡◌, refl, ap, ◌∙◌, List, [], ◌∷◌, ◌++◌, append_assoc, Text, arith, length, is_digit,
}
use plexy.Nom.{Nom, view}
use plexy.Nom.Meaning.{read, backtrack, seen_char, seen_list, front, Leaves, Consumes}
use plexy.Nom.Listed.{Every, list-Every, single_again, several_again}
use plexy.Nom.Basics.{seen_char-Leaves, seen_number-Leaves}
use plexy.Nom.Reads.{Leaves-cong, Consumes-cong}
use plexy.Nom.Lifted.{map-Leaves, alt-Leaves, separated_pair-Leaves, delimited-Leaves}
use plexy.Tunnel.{SocketSpec}
use plexy.Tunnel.Parser.{port, ipv6, socket_spec, socket_spec1, socket_spec2, socket_spec3}
use plexy.Tunnel.Specs.{more_remotes}
use plexy.Tunnel.Hosts.{
  host_name_whole, ipv4_whole, ipv6_inner_whole, seen_one-Leaves, seen_tag-one,
}
use plexy.Tunnel.Shapes.{seen_char_cons}
use plexy.Tunnel.Again.{spec_again, char-reads}

pub seen_char-Consumes : (t : ℕ) → Consumes (seen_char t)
seen_char-Consumes t i rest a e =
    omega (arith, ap (λ (s : Text). length s) (seen_char_cons t i rest a e))

module _ (nom : Nom) where
  pub char-Leaves : (c : ℕ) → Leaves (λ i. view (nom.char c i))
  char-Leaves c = Leaves-cong (nom.char-view c) (seen_char-Leaves c)

  port-Leaves : Leaves (λ i. view (port nom i))
  unfolding port
  port-Leaves = Leaves-cong nom.u16-view (seen_number-Leaves (2 ^ 16))

  tag-Leaves : (c : ℕ) → Leaves (λ i. view (nom.tag (c ∷ []) i))
  tag-Leaves c = Leaves-cong (λ i. nom.tag-view (c ∷ []) i ∙ seen_tag-one c i) (seen_one-Leaves c)

  pub socket_spec-Leaves : Leaves (λ i. view (socket_spec nom i))
  unfolding socket_spec socket_spec1 socket_spec2 socket_spec3 ipv6
  socket_spec-Leaves =
      alt-Leaves nom _ _
        (map-Leaves nom _ _ (
          separated_pair-Leaves nom _ _ _
            (delimited-Leaves nom _ _ _ (tag-Leaves b'[')
              (λ i r t e. (t, ipv6_inner_whole nom i r t e)) (tag-Leaves b']'))
            (char-Leaves b':') port-Leaves))
        (alt-Leaves nom _ _
          (map-Leaves nom _ _ (
            separated_pair-Leaves nom _ _ _
              (alt-Leaves nom _ _ (λ i r t e. (t, host_name_whole nom i r t e))
                (λ i r t e. (t, ipv4_whole nom i r t e)))
              (char-Leaves b':') port-Leaves))
          (map-Leaves nom _ _ port-Leaves))

  -- A spec that was read from some text.
  abbrev pub Parsed : SocketSpec → Type 0
  Parsed k = (i r : Text) × (view (socket_spec nom i) ≡ read r k)

  remotes_round :
      (i : Text)
      → view (nom.separated_list1 (nom.char b',') (socket_spec nom) i)
        ≡ seen_list
            (λ j. view (nom.char b',' j))
            (λ j. view (socket_spec nom j))
            (λ j. view (nom.separated_list1 (nom.char b',') (socket_spec nom) j))
            i
  remotes_round =
      nom.separated_list1-view (nom.char b',') (socket_spec nom)
        (Consumes-cong (nom.char-view b',') (seen_char-Consumes b',')) socket_spec-Leaves

  pub remotes-Parsed :
      (i r : Text) (ks : List SocketSpec)
      → view (nom.separated_list1 (nom.char b',') (socket_spec nom) i) ≡ read r ks
      → (y : SocketSpec) × (ys : List SocketSpec) × (ks ≡ y ∷ ys) × Parsed y × Every Parsed ys
  remotes-Parsed i r ks e =
      list-Every (λ j. view (nom.char b',' j)) (λ j. view (socket_spec nom j))
        (λ j. view (nom.separated_list1 (nom.char b',') (socket_spec nom) j)) remotes_round
        (Consumes-cong (nom.char-view b',') (seen_char-Consumes b',')) (char-Leaves b',')
        socket_spec-Leaves Parsed (λ i r k e. (i, r, e)) i r ks e

  -- What is printed of the remotes behind the first one, and a text behind them.
  abbrev pub more_text : List SocketSpec → Text → Text
  more_text [] t = t
  more_text (z ∷ zs) t = b',' ∷ (z.inner ++ more_text zs t)

  pub more_text-more_remotes :
      (zs : List SocketSpec) (t : Text) → more_remotes zs ++ t ≡ more_text zs t
  unfolding more_remotes
  more_text-more_remotes [] t = refl
  more_text-more_remotes (z ∷ zs) t =
      ap (λ (x : Text). b',' ∷ x)
        (append_assoc z.inner (more_remotes zs) t
          ∙ ap (λ (x : Text). z.inner ++ x) (more_text-more_remotes zs t))

  -- Parsed remotes are read again from what is printed of them.
  pub remotes_again :
      (y : SocketSpec) (ys : List SocketSpec) (t : Text)
      → Parsed y
      → Every Parsed ys
      → front is_digit t ≡ []
      → view (nom.char b',' t) ≡ backtrack
      → view (nom.separated_list1 (nom.char b',') (socket_spec nom) (y.inner ++ more_text ys t))
        ≡ read t (y ∷ ys)
  remotes_again y [] t (i, r, e) h f c =
      single_again (λ j. view (nom.char b',' j)) (λ j. view (socket_spec nom j))
        (λ j. view (nom.separated_list1 (nom.char b',') (socket_spec nom) j)) remotes_round
        (y.inner ++ t) t y (spec_again nom i r t y e f) c
  remotes_again y (z ∷ ys) t (i, r, e) (pz, h) f c =
      several_again (λ j. view (nom.char b',' j)) (λ j. view (socket_spec nom j))
        (λ j. view (nom.separated_list1 (nom.char b',') (socket_spec nom) j)) remotes_round _
        (b',' ∷ (z.inner ++ more_text ys t)) (z.inner ++ more_text ys t) t y b',' (z ∷ ys)
        (spec_again nom i r (b',' ∷ (z.inner ++ more_text ys t)) y e refl)
        (char-reads nom b',' (z.inner ++ more_text ys t)) (remotes_again z ys t pz h f c)
