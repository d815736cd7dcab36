-- ===== src/Tunnel/Parser.antt =====
-- src/tunnel/parser.rs: the grammar of socket specs, options and tunnels.
use plexy.Prelude.{
  ℕ, ◌^◌, Bool, true, false, ◌&&◌, ◌||◌, not, List, [], ◌∷◌, ◌++◌, Option, none, some, Text, codes,
  text_eq, to_ascii_lowercase, is_digit, decimal, parse_unsigned, leb, ◌==◌, if◌then◌else◌,
}
use plexy.Strategy.{strategy_from_str}
use plexy.Errors.{Result, ok, err}
use plexy.Tunnel.{SocketSpec, F32, TunnelOptions, Tunnel}
use plexy.Nom.Meaning.{is_alpha}
use plexy.Nom.{IResult, done, error, failure, incomplete, Nom}

abbrev pub is_ascii_alphanumeric : ℕ → Bool
is_ascii_alphanumeric c = is_digit c || is_alpha c

abbrev pub is_ascii_hexdigit : ℕ → Bool
is_ascii_hexdigit c = is_digit c || leb b'a' c && leb c b'f' || leb b'A' c && leb c b'F'

abbrev pub is_other_hostname_char : ℕ → Bool
is_other_hostname_char c = c == b'.' || c == b'-'

abbrev pub is_hostname_char : ℕ → Bool
is_hostname_char c = is_ascii_alphanumeric c || is_other_hostname_char c

abbrev pub is_option_name_char : ℕ → Bool
is_option_name_char c = is_ascii_alphanumeric c || c == b'_' || c == b'-'

-- `s.chars().last()`
abbrev pub last : Text → Option ℕ
last [] = none
last (c ∷ []) = some c
last (c ∷ d ∷ s) = last (d ∷ s)

-- The closure of `host_name`: the last character is no dot or dash.
abbrev pub ends_well : Text → Bool
ends_well x = elim (last x) [ none ↦ false | some c ↦ not (is_other_hostname_char c) ]

-- `str::parse::<bool>`
abbrev pub parse_bool : Text → Option Bool
parse_bool s =
    if text_eq s (codes "true")
    then some true
    else if text_eq s (codes "false")
    then some false
    else none

-- The options after some of the pairs, or the key or value that `err` reports.
pub data Applied : Type 0 where
  applied : TunnelOptions → Applied
  rejected : Text → Applied

-- `options.field = v.parse().map_err(|_| err(v))?`
abbrev pub assign {ℓ} : {A : Type ℓ} → Text → Option A → (A → TunnelOptions) → Applied
assign v none set = rejected v
assign v (some a) set = applied (set a)

abbrev pub result_option {ℓ} : {A : Type ℓ} → Result A → Option A
result_option (ok a) = some a
result_option (err e) = none

-- `parse_f32` is `str::parse::<f32>`.
module _ (parse_f32 : Text → Option F32) where
  -- The match on a key. Its characters are ASCII, so `to_lowercase` is that of ASCII.
  unfoldable pub set_option : TunnelOptions → Text → Text → Applied
  set_option o k v =
      let key = to_ascii_lowercase k in
      if text_eq key (codes "strategy")
      then assign v (result_option (strategy_from_str v)) (λ x. record o { lb_strategy = x })
      else if text_eq key (codes "retries")
      then assign v (parse_unsigned (2 ^ 16) v) (λ x. record o { remote_connect_retries = x })
      else if text_eq key (codes "timeout")
      then assign v (parse_f32 v)
          (λ x. record o { options = record o.options { connect_timeout = x } })
      else if text_eq key (codes "errors")
      then assign v (parse_unsigned (2 ^ 64) v)
          (λ x. record o { options = record o.options { errors_till_dead = x } })
      else if text_eq key (codes "check-interval")
      then assign v (parse_f32 v) (λ x. record o { options = record o.options { dead_retry = x } })
      else if text_eq key (codes "remote-tls")
      then assign v (parse_bool v) (λ x. record o { options = record o.options { tls = x } })
      else rejected k

  -- `for (k, v) in items`
  unfoldable pub set_options : TunnelOptions → List (Text × Text) → Applied
  unfolding set_option
  set_options o [] = applied o
  set_options o ((k, v) ∷ items) = elim (set_option o k v) [
    | applied o' ↦ set_options o' items
    | rejected x ↦ rejected x
  ]

abbrev pub local_host : Text
local_host = codes "127.0.0.1"

-- `format!("{}:{}", host, port)`
abbrev pub host_port : Text → ℕ → SocketSpec
host_port host port = record { inner = host ++ b':' ∷ decimal port }

module _ (nom : Nom) where
  abbrev pub Parser : Type 0 → Type 0
  Parser A = Text → IResult nom.Kind A

  unfoldable pub port : Parser ℕ
  port = nom.u16

  unfoldable pub host_name : Parser Text
  host_name =
      nom.verify (nom.recognize (nom.pair nom.alpha1 (nom.take_while is_hostname_char))) ends_well

  unfoldable pub ipv6_segment : Parser Text
  ipv6_segment = nom.take_while_m_n 0 4 is_ascii_hexdigit

  unfoldable pub ipv6 : Parser Text
  unfolding ipv6_segment
  ipv6 =
      nom.delimited (nom.tag (codes "["))
        (nom.recognize (nom.separated_list1 (nom.tag (codes ":")) ipv6_segment))
        (nom.tag (codes "]"))

  -- The tuple of seven is nested pairs.
  unfoldable pub ipv4 : Parser Text
  ipv4 =
      let dotted = nom.pair nom.u8 (nom.char b'.') in
      nom.recognize (nom.pair dotted (nom.pair dotted (nom.pair dotted nom.u8)))

  unfoldable pub socket_spec1 : Parser SocketSpec
  unfolding port
  socket_spec1 = nom.map port (host_port local_host)

  unfoldable pub socket_spec2 : Parser SocketSpec
  unfolding host_name ipv4 port
  socket_spec2 =
      nom.map (nom.separated_pair (nom.alt host_name ipv4) (nom.char b':') port)
        (λ (p : Text × ℕ). host_port p.0 p.1)

  unfoldable pub socket_spec3 : Parser SocketSpec
  unfolding ipv6 port
  socket_spec3 =
      nom.map (nom.separated_pair ipv6 (nom.char b':') port)
        (λ (p : Text × ℕ). host_port (b'[' ∷ p.0 ++ b']' ∷ []) p.1)

  unfoldable pub socket_spec : Parser SocketSpec
  unfolding socket_spec1 socket_spec2 socket_spec3
  socket_spec = nom.alt socket_spec3 (nom.alt socket_spec2 socket_spec1)

  -- `parse_f32` is `str::parse::<f32>`, and `default` is `TunnelOptions::default()`.
  module _ (parse_f32 : Text → Option F32) (default : TunnelOptions) where
    unfoldable pub option_items : Parser (List (Text × Text))
    option_items = nom.separated_list1 (nom.char b',') (
        nom.separated_pair (nom.take_while is_option_name_char) (nom.char b'=')
          (nom.take_till (λ c. c == b',' || c == b']')))

    -- The closure of `and_then`.
    unfoldable pub with_items :
        IResult nom.Kind (List (Text × Text)) → IResult nom.Kind TunnelOptions
    unfolding set_options
    with_items (error k i) = error k i
    with_items (failure k i) = failure k i
    with_items incomplete = incomplete
    with_items (done rest items) = elim (set_options parse_f32 default items) [
      | applied o ↦ done rest o
      | rejected x ↦ failure nom.verify_kind x
    ]

    unfoldable pub options : Parser TunnelOptions
    unfolding option_items with_items
    options i = with_items (option_items i)

    unfoldable pub tunnel : Parser Tunnel
    unfolding socket_spec options
    tunnel = nom.all_consuming (
        nom.map
          (nom.separated_pair socket_spec (nom.char b'=') (
            nom.pair (nom.separated_list1 (nom.char b',') socket_spec)
              (nom.opt (nom.delimited (nom.char b'[') options (nom.char b']')))))
          (λ (p : SocketSpec × (List SocketSpec × Option TunnelOptions)). record {
            local = p.0;
            remote = p.1.0;
            options = p.1.1;
          }))
