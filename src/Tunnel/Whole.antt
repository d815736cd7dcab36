-- ===== src/Tunnel/Whole.antt =====
-- src/tunnel.rs and src/tunnel/parser.rs: tunnels read from text, printed and read again.
use plexy.Prelude.{
  ◌≡◌, refl, sym, ap, ◌∙◌, List, [], ◌∷◌, ◌++◌, append_assoc, append-nil, Option, none, Text,
  is_digit, subst,
}
use plexy.Errors.{ok}
use plexy.Nom.{Nom, IResult, done, error, failure, incomplete, view}
use plexy.Nom.Meaning.{Seen, read, backtrack, fatal, seen_all, seen_opt, seen_map, front}
use plexy.Nom.Combined.{seen_pair-read, seen_map-read}
use plexy.Nom.Listed.{Every}
use plexy.Nom.Reads.{seen_separated-read, delimited-backtrack}
use plexy.Tunnel.{SocketSpec, F32, Tunnel, TunnelOptions}
use plexy.Tunnel.Parser.{socket_spec, options, tunnel}
use plexy.Tunnel.Specs.{
  whole_tunnel, tunnel_from_str, tunnel_to_string, remotes_to_string, more_remotes,
}
use plexy.Tunnel.Again.{spec_again, char-reads}
use plexy.Tunnel.RoundTrip.{view-read}
use plexy.Tunnel.Remotes.{Parsed, more_text, more_text-more_remotes, remotes-Parsed, remotes_again}

module _ (nom : Nom) where
  seen_all-read :
      {A : Type 0} (s : Seen A) (r : Text) (a : A) → seen_all s ≡ read r a → s ≡ read r a
  seen_all-read (read [] a') r a e = e
  seen_all-read (read (c ∷ s) a') r a e = cc
  seen_all-read backtrack r a e = cc
  seen_all-read fatal r a e = cc

  module _ (parse_f32 : Text → Option F32) (default : TunnelOptions) where
    pub tunnel_from_str-read :
        (s : Text) (t : Tunnel)
        → tunnel_from_str nom parse_f32 default s ≡ ok t
        → (r : Text) × (view (tunnel nom parse_f32 default s) ≡ read r t)
    unfolding tunnel_from_str whole_tunnel
    tunnel_from_str-read s t e = accepted (tunnel nom parse_f32 default s) e
      where
        accepted :
            (x : IResult nom.Kind Tunnel)
            → whole_tunnel nom x ≡ ok t
            → (r : Text) × (view x ≡ read r t)
        accepted (done r a) e = (r, cc)
        accepted (error c i) e = cc
        accepted (failure c i) e = cc
        accepted incomplete e = cc

    pub tunnel-Parsed :
        (s r : Text) (t : Tunnel)
        → view (tunnel nom parse_f32 default s) ≡ read r t
        → Parsed nom t.local
          × ((y : SocketSpec) × (ys : List SocketSpec) × (t.remote ≡ y ∷ ys)
              × Parsed nom y
              × Every (Parsed nom) ys)
    unfolding tunnel
    tunnel-Parsed s r t e =
        let (p, x, q) =
          seen_map-read _ _ (
            sym (nom.map-view _ _ s)
            ∙ seen_all-read _ r t (sym (nom.all_consuming-view _ s) ∙ e)) in
        let (rest, after, c, u, v, w) =
          seen_separated-read (view (socket_spec nom s)) (λ j. view (nom.char b'=' j)) _ r p
            (sym (nom.separated_pair-view _ _ _ s) ∙ x) in
        let (rest', u', v') =
          seen_pair-read (λ j. view (nom.separated_list1 (nom.char b',') (socket_spec nom) j))
            (λ j. view (
              nom.opt
                (nom.delimited (nom.char b'[') (options nom parse_f32 default) (nom.char b']')) j))
            after r p.1 (sym (nom.pair-view _ _ after) ∙ w) in
        let (y, ys, ks, py, pys) = remotes-Parsed nom after rest' p.1.0 u' in
        (
          subst (Parsed nom) (ap (λ (t : Tunnel). t.local) q) (s, rest, u),
          (y, ys, sym (ap (λ (t : Tunnel). t.remote) q) ∙ ks, py, pys),
        )

    abbrev pub bracketed_options : Text → Seen (Option TunnelOptions)
    bracketed_options i =
        view (
          nom.opt (nom.delimited (nom.char b'[') (options nom parse_f32 default) (nom.char b']')) i)

    -- The tunnel with what was read of its options, if nothing is left.
    abbrev pub with_options :
        SocketSpec → List SocketSpec → Seen (Option TunnelOptions) → Seen Tunnel
    with_options k ks s =
        seen_all (seen_map (λ x. record { local = k; remote = ks; options = x }) s)

    abbrev make : SocketSpec × (List SocketSpec × Option TunnelOptions) → Tunnel
    make p = record { local = p.0; remote = p.1.0; options = p.1.1 }

    nested :
        (k : SocketSpec) (ks : List SocketSpec) (s : Seen (Option TunnelOptions))
        → seen_all (
            seen_map make (
              seen_map
                (λ (b : List SocketSpec × Option TunnelOptions). (k, b))
                (seen_map (λ (x : Option TunnelOptions). (ks, x)) s)))
          ≡ with_options k ks s
    nested k ks (read r x) = refl
    nested k ks backtrack = refl
    nested k ks fatal = refl

    -- The tunnel of parsed specs is read again from what is printed of it, up to its options.
    pub tunnel_again :
        (k y : SocketSpec) (ys : List SocketSpec) (t : Text)
        → Parsed nom k
        → Parsed nom y
        → Every (Parsed nom) ys
        → front is_digit t ≡ []
        → view (nom.char b',' t) ≡ backtrack
        → view (tunnel nom parse_f32 default (k.inner ++ b'=' ∷ (y.inner ++ more_text nom ys t)))
          ≡ with_options k (y ∷ ys) (bracketed_options t)
    unfolding tunnel
    tunnel_again k y ys t (i, r, e) py pys f c =
        let j = y.inner ++ more_text nom ys t in
        let list = nom.separated_list1 (nom.char b',') (socket_spec nom) in
        let opts =
          nom.opt (nom.delimited (nom.char b'[') (options nom parse_f32 default) (nom.char b']')) in
        nom.all_consuming-view _ _
        ∙ ap (λ (x : Seen Tunnel). seen_all x)
            (nom.map-view _ _ _
              ∙ ap
                  (λ (x : Seen (SocketSpec × (List SocketSpec × Option TunnelOptions))).
                    seen_map make x)
                  (nom.separated_pair-view (socket_spec nom) (nom.char b'=') (nom.pair list opts) _
                    ∙ rw
                        (
                          spec_again nom i r (b'=' ∷ j) k e refl,
                          char-reads nom b'=' j,
                          nom.pair-view list opts j,
                          remotes_again nom y ys t py pys f c,
                        )
                        refl))
        ∙ nested k (y ∷ ys) (bracketed_options t)

    no_options : bracketed_options [] ≡ read [] none
    no_options =
        nom.opt-view _ []
        ∙ ap (λ (x : Seen TunnelOptions). seen_opt [] x)
            (delimited-backtrack nom (nom.char b'[') (options nom parse_f32 default) (nom.char b']')
              [] (nom.char-view b'[' []))

    pub tunnel_to_string-text :
        (t : Tunnel) (y : SocketSpec) (ys : List SocketSpec) (tail : Text)
        → t.remote ≡ y ∷ ys
        → tunnel_to_string t ++ tail ≡ t.local.inner ++ b'=' ∷ (y.inner ++ more_text nom ys tail)
    unfolding tunnel_to_string remotes_to_string
    tunnel_to_string-text t y ys tail q = rw q (
        append_assoc t.local.inner (b'=' ∷ (y.inner ++ more_remotes ys)) tail
        ∙ ap (λ (x : Text). t.local.inner ++ b'=' ∷ x)
            (append_assoc y.inner (more_remotes ys) tail
              ∙ ap (λ (x : Text). y.inner ++ x) (more_text-more_remotes nom ys tail)))

    -- A tunnel that `from_str` accepted is printed as a text that `from_str` accepts as the same
    -- tunnel, without its options.
    pub tunnel_from_str-to_string :
        (s : Text) (t : Tunnel)
        → tunnel_from_str nom parse_f32 default s ≡ ok t
        → tunnel_from_str nom parse_f32 default (tunnel_to_string t)
          ≡ ok (record t { options = none })
    unfolding tunnel_from_str whole_tunnel
    tunnel_from_str-to_string s t e =
        let (r, x) = tunnel_from_str-read s t e in
        let (pk, others) = tunnel-Parsed s r t x in
        let (y, ys, q, py, pys) = others in
        let text = sym (append-nil (tunnel_to_string t)) ∙ tunnel_to_string-text t y ys [] q in
        let again = view-read [] _ _ (
          tunnel_again t.local y ys [] pk py pys refl (nom.char-view b',' [])
          ∙ ap (with_options t.local (y ∷ ys)) no_options) in
        ap (tunnel_from_str nom parse_f32 default) text
        ∙ ap (whole_tunnel nom) again
        ∙ ap
            (λ (ks : List SocketSpec). ok (record { local = t.local; remote = ks; options = none }))
            (sym q)
