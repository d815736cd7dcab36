-- ===== src/Tunnel.antt =====
-- src/tunnel.rs: socket specs, tunnels and their options.
pub mod Parser
pub mod Specs
pub mod Hosts
pub mod Shapes
pub mod Again
pub mod RoundTrip
pub mod Remotes
pub mod Whole
pub mod Settings
pub mod Accepted
pub mod Options
pub mod Examples
use plexy.Prelude.{ℕ, ap, Text, Bool, false, List, Option, text_discrete}
use plexy.Strategy.{TunnelLbStrategy, random}

-- A shared string. Equality and hashing are the string's.
pub record SocketSpec : Type 0 where
  pub inner : Text

unfoldable pub SocketSpec-discrete : Discrete SocketSpec
unfolding text_discrete
SocketSpec-discrete a b = elim (text_discrete a.inner b.inner) [
  | yes p ↦ yes (ap (λ (t : Text). record { inner = t }) p)
  | no p ↦ no λ q. p (ap (λ (k : SocketSpec). k.inner) q)
]

-- std's `SocketAddr`, kept as text.
abbrev pub SocketAddr : Type 0
SocketAddr = Text

-- An `f32` is its bit pattern. The code stores it, passes it on and makes it a `Duration`, which panics
-- on some patterns.
abbrev pub F32 : Type 0
F32 = ℕ

-- 10.0
abbrev pub f32_ten : F32
f32_ten = 0x41200000

pub record TunnelRemoteOptions : Type 0 where
  pub errors_till_dead : ℕ
  pub connect_timeout : F32
  pub dead_retry : F32
  pub tls : Bool

pub record TunnelOptions : Type 0 where
  pub lb_strategy : TunnelLbStrategy
  pub remote_connect_retries : ℕ
  pub options : TunnelRemoteOptions

-- `DEFAULT_TUNNEL_OPTIONS`
abbrev pub default_tunnel_options : TunnelOptions
default_tunnel_options = record {
  lb_strategy = random;
  remote_connect_retries = 3;
  options = record {
    errors_till_dead = 1;
    connect_timeout = f32_ten;
    dead_retry = f32_ten;
    tls = false;
  };
}

pub record Tunnel : Type 0 where
  pub local : SocketSpec
  pub remote : List SocketSpec
  pub options : Option TunnelOptions
