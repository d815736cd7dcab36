-- ===== src/Tunnel/Options.antt =====
-- src/tunnel/parser.rs: the options behind the remotes of a tunnel.
use plexy.Prelude.{
  ℕ, ◌≡◌, inl, inr, refl, sym, ap, ◌∙◌, ◌⊎◌, Bool, true, false, ◌||◌, not, List, [], ◌∷◌, ◌++◌,
  Option, some, Text, AllOf, every_char, every_char-AllOf, ◌==◌,
}
use plexy.Errors.{ok, err, tunnel_parse_error}
use plexy.Nom.{Nom, IResult, done, error, failure, incomplete, view}
use plexy.Nom.Meaning.{Seen, read, fatal, seen_opt, seen_list, front, Leaves}
use plexy.Nom.Basics.{seen_while-Leaves}
use plexy.Nom.Listed.{Every, single_again, several_again}
use plexy.Nom.Reads.{Leaves-cong, Consumes-cong, front-AllOf, behind-AllOf, separated_pair-reads}
use plexy.Nom.Lifted.{separated_pair-Leaves}
use plexy.Tunnel.{SocketSpec, F32, Tunnel, TunnelOptions}
use plexy.Tunnel.Parser.{
  is_option_name_char, option_items, with_items, options, applied, rejected, set_options,
}
use plexy.Tunnel.Specs.{whole_tunnel, tunnel_from_str, tunnel_to_string}
use plexy.Tunnel.Again.{char-reads}
use plexy.Tunnel.RoundTrip.{view-read}
use plexy.Tunnel.Remotes.{char-Leaves, seen_char-Consumes}
use plexy.Tunnel.Settings.{HasFields, last_setting, set_options-last}
use plexy.Tunnel.Accepted.{all_accepted, set_options-IsDecided}
use plexy.Tunnel.Whole.{
  bracketed_options, with_options, tunnel_again, tunnel-Parsed, tunnel_from_str-read,
  tunnel_to_string-text,
}

abbrev pub ends_value : ℕ → Bool
ends_value c = c == b',' || c == b']'

-- A key of letters, digits, `_` and `-`, and a value without `,` and `]`.
abbrev pub IsItem : Text × Text → Type 0
IsItem (k, v) = AllOf is_option_name_char k × AllOf (λ c. not (ends_value c)) v

pub tested_IsItem :
    (k v : Text)
    → every_char is_option_name_char k ≡ true
    → every_char (λ c. not (ends_value c)) v ≡ true
    → IsItem (k, v)
tested_IsItem k v e f =
    (every_char-AllOf is_option_name_char k e, every_char-AllOf (λ c. not (ends_value c)) v f)

-- Options as they are written, and a text behind them.
abbrev pub item_text : Text × Text → Text → Text
item_text (k, v) t = k ++ b'=' ∷ (v ++ t)

abbrev pub more_items : List (Text × Text) → Text → Text
more_items [] t = t
more_items (x ∷ xs) t = b',' ∷ item_text x (more_items xs t)

module _ (nom : Nom) where
  item : Text → IResult nom.Kind (Text × Text)
  item =
      nom.separated_pair (nom.take_while is_option_name_char) (nom.char b'=')
        (nom.take_till ends_value)

  item_again :
      (x : Text × Text) (t : Text)
      → IsItem x
      → front (λ c. not (ends_value c)) t ≡ []
      → view (item (item_text x t)) ≡ read t x
  unfolding item
  item_again (k, v) t (hk, hv) e =
      separated_pair-reads nom (nom.take_while is_option_name_char) (nom.take_till ends_value)
        (nom.char b'=') _ (b'=' ∷ (v ++ t)) (v ++ t) t k b'=' v
        (nom.take_while-view is_option_name_char _
          ∙ rw
              (
                behind-AllOf is_option_name_char k (b'=' ∷ (v ++ t)) hk refl,
                front-AllOf is_option_name_char k (b'=' ∷ (v ++ t)) hk refl,
              )
              refl)
        (char-reads nom b'=' (v ++ t))
        (nom.take_till-view ends_value _
          ∙ rw
              (
                behind-AllOf (λ c. not (ends_value c)) v t hv e,
                front-AllOf (λ c. not (ends_value c)) v t hv e,
              )
              refl)

  item-Leaves : Leaves (λ i. view (item i))
  unfolding item
  item-Leaves =
      separated_pair-Leaves nom _ _ _
        (Leaves-cong (nom.take_while-view is_option_name_char)
          (seen_while-Leaves is_option_name_char))
        (char-Leaves nom b'=')
        (Leaves-cong (nom.take_till-view ends_value) (seen_while-Leaves (λ c. not (ends_value c))))

  items : Text → IResult nom.Kind (List (Text × Text))
  unfolding item
  items = nom.separated_list1 (nom.char b',') item

  items_round :
      (i : Text)
      → view (items i)
        ≡ seen_list (λ j. view (nom.char b',' j)) (λ j. view (item j)) (λ j. view (items j)) i
  unfolding items item
  items_round =
      nom.separated_list1-view (nom.char b',') item
        (Consumes-cong (nom.char-view b',') (seen_char-Consumes b',')) item-Leaves

  items_again :
      (x : Text × Text) (xs : List (Text × Text)) (t : Text)
      → IsItem x
      → Every IsItem xs
      → view (items (item_text x (more_items xs (b']' ∷ t)))) ≡ read (b']' ∷ t) (x ∷ xs)
  items_again x [] t hx h =
      single_again (λ j. view (nom.char b',' j)) (λ j. view (item j)) (λ j. view (items j))
        items_round (item_text x (b']' ∷ t)) (b']' ∷ t) x (item_again x (b']' ∷ t) hx refl)
        (nom.char-view b',' (b']' ∷ t))
  items_again x (y ∷ ys) t hx (hy, h) =
      let rest = item_text y (more_items ys (b']' ∷ t)) in
      several_again (λ j. view (nom.char b',' j)) (λ j. view (item j)) (λ j. view (items j))
        items_round _ (b',' ∷ rest) rest (b']' ∷ t) x b',' (y ∷ ys)
        (item_again x (b',' ∷ rest) hx refl) (char-reads nom b',' rest) (items_again y ys t hy h)

  view-fatal :
      (r : IResult nom.Kind Tunnel)
      → view r ≡ fatal
      → (m : Text) × (whole_tunnel nom r ≡ err (tunnel_parse_error m))
  unfolding whole_tunnel
  view-fatal (done rest t) e = cc
  view-fatal (error k i) e = cc
  view-fatal (failure k i) e = (_, refl)
  view-fatal incomplete e = (_, refl)

  module _ (parse_f32 : Text → Option F32) (default : TunnelOptions) (x : Text × Text)
      (xs : List (Text × Text)) (item_x : IsItem x) (items_xs : Every IsItem xs) where
    abbrev pub options_text : Text
    options_text = b'[' ∷ item_text x (more_items xs (b']' ∷ []))

    options-done :
        option_items nom parse_f32 default (item_text x (more_items xs (b']' ∷ [])))
        ≡ done (b']' ∷ []) (x ∷ xs)
    unfolding option_items items item
    options-done = view-read (b']' ∷ []) (x ∷ xs) _ (items_again x xs [] item_x items_xs)

    options_applied :
        (o : TunnelOptions)
        → set_options parse_f32 default (x ∷ xs) ≡ applied o
        → bracketed_options nom parse_f32 default options_text ≡ read [] (some o)
    unfolding options with_items
    options_applied o e =
        let inside : view (
              nom.delimited (nom.char b'[') (options nom parse_f32 default) (nom.char b']')
                options_text)
            ≡ read [] o =
          nom.delimited-view (nom.char b'[') (options nom parse_f32 default) (nom.char b']')
            options_text
          ∙ rw (char-reads nom b'[' _, options-done, e, with_items, char-reads nom b']' []) refl in
        nom.opt-view _ options_text
        ∙ ap (λ (y : Seen TunnelOptions). seen_opt options_text y) inside

    options_rejected :
        (v : Text)
        → set_options parse_f32 default (x ∷ xs) ≡ rejected v
        → bracketed_options nom parse_f32 default options_text ≡ fatal
    unfolding options with_items
    options_rejected v e =
        let inside : view (
              nom.delimited (nom.char b'[') (options nom parse_f32 default) (nom.char b']')
                options_text)
            ≡ fatal =
          nom.delimited-view (nom.char b'[') (options nom parse_f32 default) (nom.char b']')
            options_text
          ∙ rw (char-reads nom b'[' _, options-done, e, with_items) refl in
        nom.opt-view _ options_text
        ∙ ap (λ (y : Seen TunnelOptions). seen_opt options_text y) inside

    -- Behind the printed text of a tunnel that `from_str` accepted, options in brackets, one or more,
    -- each with a key of letters, digits, `_` and `-` and a value without `,` and `]`: when each key is
    -- in lower case one of the six names and its value can be read, the text gives that tunnel with
    -- options that have for each field the value of the last option with the field's name, or the
    -- default; when a key is unknown or a value cannot be read, the text is refused.
    pub tunnel_from_str-options :
        (s : Text) (t : Tunnel)
        → tunnel_from_str nom parse_f32 default s ≡ ok t
        → ((all_accepted parse_f32 (x ∷ xs) ≡ true)
            × ((o : TunnelOptions) × (tunnel_from_str nom parse_f32 default
                    (tunnel_to_string t ++ options_text)
                  ≡ ok (record t { options = some o }))
                × HasFields parse_f32
                    (λ A name parse old. last_setting name parse (x ∷ xs) old)
                    default
                    o))
          ⊎ ((all_accepted parse_f32 (x ∷ xs) ≡ false)
              × ((m : Text) × (tunnel_from_str nom parse_f32 default
                      (tunnel_to_string t ++ options_text)
                    ≡ err (tunnel_parse_error m))))
    unfolding tunnel_from_str whole_tunnel
    tunnel_from_str-options s t e =
        let (r, q) = tunnel_from_str-read nom parse_f32 default s t e in
        let (pk, others) = tunnel-Parsed nom parse_f32 default s r t q in
        let (y, ys, p, py, pys) = others in
        let text = tunnel_to_string-text nom parse_f32 default t y ys options_text p in
        let again =
          tunnel_again nom parse_f32 default t.local y ys options_text pk py pys refl
            (nom.char-view b',' options_text) in
        elim (set_options-IsDecided parse_f32 default (x ∷ xs)) [
          | inl (a, (o, f)) ↦
              let whole = view-read [] _ _ (
                again
                ∙ ap (with_options nom parse_f32 default t.local (y ∷ ys)) (options_applied o f)) in
              inl (
                a,
                (
                  o,
                  ap (tunnel_from_str nom parse_f32 default) text
                      ∙ ap (whole_tunnel nom) whole
                      ∙ ap
                          (λ (ks : List SocketSpec).
                            ok (record { local = t.local; remote = ks; options = some o }))
                          (sym p),
                  set_options-last parse_f32 default o (x ∷ xs) f,
                ),
              )
          | inr (a, (v, f)) ↦
              let (m, g) = view-fatal _ (
                again
                ∙ ap (with_options nom parse_f32 default t.local (y ∷ ys))
                    (options_rejected v f)) in
              inr (a, (m, ap (tunnel_from_str nom parse_f32 default) text ∙ g))
        ]
