-- ===== src/Strategy.antt =====
-- src/state/strategy.rs: the names of the load balancing strategies, read and printed.
use plexy.Prelude.{
  ◌≡◌, refl, Bool, ◌||◌, Text, codes, text_eq, to_lower, to_ascii_lowercase, if◌then◌else◌,
}
use plexy.Errors.{Result, ok, err, invalid_lb_strategy}

pub data TunnelLbStrategy : Type 0 where
  random round_robin minimum_open_connections : TunnelLbStrategy

-- `TunnelLBStrategy::default`
abbrev pub default_strategy : TunnelLbStrategy
default_strategy = random

-- the patterns of the second arm
is_round_robin : Text → Bool
is_round_robin s =
    text_eq s (codes "roundrobin")
    || text_eq s (codes "round-robin")
    || text_eq s (codes "round_robin")

-- the patterns of the third arm
is_minimum_open_connections : Text → Bool
is_minimum_open_connections s =
    text_eq s (codes "minimum-open-connections")
    || text_eq s (codes "minimum_open_connections")
    || text_eq s (codes "minimumopenconnections")
    || text_eq s (codes "min-open-connections")
    || text_eq s (codes "min_open_connections")
    || text_eq s (codes "minopenconnections")

strategy_of_lowercase : Text → Result TunnelLbStrategy
unfolding is_round_robin is_minimum_open_connections
strategy_of_lowercase s =
    if text_eq s (codes "random")
    then ok random
    else if is_round_robin s
    then ok round_robin
    else if is_minimum_open_connections s
    then ok minimum_open_connections
    else err invalid_lb_strategy

-- `FromStr::from_str`
unfoldable pub strategy_from_str : Text → Result TunnelLbStrategy
unfolding strategy_of_lowercase
strategy_from_str s = strategy_of_lowercase (to_ascii_lowercase s)

-- `Display::fmt`
unfoldable pub strategy_to_string : TunnelLbStrategy → Text
strategy_to_string random = codes "random"
strategy_to_string round_robin = codes "round-robin"
strategy_to_string minimum_open_connections = codes "minimum-open-connections"

-- Reading the printed name of a strategy gives the strategy.
pub strategy_from_str-to_string :
    (s : TunnelLbStrategy) → strategy_from_str (strategy_to_string s) ≡ ok s
unfolding strategy_from_str strategy_to_string text_eq to_ascii_lowercase to_lower
strategy_from_str-to_string random = refl
strategy_from_str-to_string _ = refl
