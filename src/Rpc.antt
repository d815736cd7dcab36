-- ===== src/Rpc.antt =====
-- src/rpc.rs: the methods of the JSON RPC interface. The server of the library jsonrpsee is outside
-- of the model; its error object is kept as its code and message.
pub mod Same
pub mod Opened
pub mod Views
pub mod Changed
mod Examples
use plexy.Prelude.{ℕ, List, [], ◌∷◌, map, Option, none, some, Text, length, text_eq, if◌then◌else◌}
use plexy.Tunnel.{SocketSpec, Tunnel, TunnelOptions}
use plexy.Tunnel.Specs.{socket_spec_from_str, socket_spec_to_string}
use plexy.Errors.{Error, Result, ok, err, ◌>>=◌, error_code, error_to_string}
use plexy.Maps.{KeyedMap, IndexMap}
use plexy.Nom.{Nom}
use plexy.State.Stats.{TunnelStats, RemoteStats}
use plexy.State.Remote.{RemoteInfo}
use plexy.State.Info.{TunnelInfo, WatchSender}
use plexy.State.Store
use plexy.State.Store.{
  State, info_to, remote_stats, add_remote_to_tunnel, remove_remote_from_tunnel,
}
use plexy.Proxy.{create_tunnel, stop_tunnel}

pub record ErrorObject : Type 0 where
  pub code : ℕ
  pub message : Text

-- `From<Error> for ErrorObject`
unfoldable pub error_object : Error → ErrorObject
error_object e = record { code = error_code e; message = error_to_string e }

pub record RpcTunnelInfo : Type 0 where
  pub stats : TunnelStats
  pub num_remotes : ℕ
  pub num_dead_remotes : ℕ
  pub options : TunnelOptions

-- std's `HashMap<String, V>` as an association list: `get`, `insert` and `collect` of pairs, where a
-- later pair overwrites an earlier one with the same key.
abbrev pub HashMap {ℓ} : Type ℓ → Type ℓ
HashMap V = List (Text × V)

unfoldable pub hash_get {ℓ} : {V : Type ℓ} → Text → HashMap V → Option V
hash_get k [] = none
hash_get k ((j, w) ∷ m) = let rest = hash_get k m in if text_eq j k then some w else rest

unfoldable pub hash_insert {ℓ} : {V : Type ℓ} → Text → V → HashMap V → HashMap V
hash_insert k v [] = (k, v) ∷ []
hash_insert k v ((j, w) ∷ m) =
    let rest = hash_insert k v m in if text_eq j k then (j, v) ∷ m else (j, w) ∷ rest

unfoldable pub insert_all {ℓ} : {V : Type ℓ} → List (Text × V) → HashMap V → HashMap V
insert_all [] m = m
insert_all ((k, v) ∷ xs) m = insert_all xs (hash_insert k v m)

-- A method that changes the state: it goes on with what was parsed, or ends with the error.
abbrev pub on_parsed {ℓ κ λ'} :
    {S : Type ℓ} {A : Type κ} {B : Type λ'} → S → Result A → (A → S × Result B) → S × Result B
on_parsed s (err e) go = (s, err e)
on_parsed s (ok a) go = go a

module _ (nom : Nom) (im : IndexMap) (dm : KeyedMap) where
  -- `From<&TunnelInfo> for RPCTunnelInfo`
  abbrev pub rpc_tunnel_info : TunnelInfo im → RpcTunnelInfo
  rpc_tunnel_info ti = record {
    stats = ti.stats;
    num_remotes = length (im.entries ti.remotes);
    num_dead_remotes = length (im.entries ti.dead_remotes);
    options = ti.options;
  }

  unfoldable pub number_of_tunnels : State im dm → ℕ
  number_of_tunnels s = Store.number_of_tunnels im dm s

  unfoldable pub tunnel_info : State im dm → Text → Result RpcTunnelInfo
  tunnel_info s tunnel_socket =
      socket_spec_from_str nom tunnel_socket >>= λ addr. info_to im dm rpc_tunnel_info s addr

  unfoldable pub remotes : State im dm → Text → Result (HashMap RemoteStats)
  remotes s tunnel_socket = socket_spec_from_str nom tunnel_socket >>= λ addr.
      remote_stats im dm s addr >>= λ r.
      ok (
        insert_all (map (λ (e : SocketSpec × RemoteStats). (socket_spec_to_string e.0, e.1)) r.0)
          [])

  -- `remotes.into_iter().map(|s| s.parse()).collect()`
  unfoldable pub parse_remotes : List Text → Result (List SocketSpec)
  parse_remotes [] = ok []
  parse_remotes (x ∷ xs) =
      let rest = parse_remotes xs in socket_spec_from_str nom x >>= λ k. rest >>= λ ks. ok (k ∷ ks)

  -- `open_tunnel`; `start` is `start_tunnel`, with what the other tasks do meanwhile.
  unfoldable pub open_tunnel :
      (State im dm → Tunnel → State im dm × Result (Unit {0}))
      → State im dm
      → Text
      → List Text
      → Option TunnelOptions
      → State im dm × Result (Unit {0})
  unfolding parse_remotes
  open_tunnel start s tunnel_socket remotes options =
      on_parsed s (socket_spec_from_str nom tunnel_socket) λ local.
        on_parsed s (parse_remotes remotes)
          λ remote. start s (record { local = local; remote = remote; options = options })

  -- `close_tunnel`, with the channel that `true` was sent on.
  unfoldable pub close_tunnel : State im dm → Text → State im dm × Result WatchSender
  close_tunnel s tunnel_socket =
      on_parsed s (socket_spec_from_str nom tunnel_socket) λ local. stop_tunnel im dm s local

  unfoldable pub list_tunnels : State im dm → List Text
  list_tunnels s = map socket_spec_to_string (Store.list_tunnels im dm s)

  unfoldable pub add_remote : State im dm → Text → Text → State im dm × Result (Unit {0})
  add_remote s tunnel remote = on_parsed s (socket_spec_from_str nom tunnel) λ local.
      on_parsed s (socket_spec_from_str nom remote) λ r. add_remote_to_tunnel im dm s local r

  -- `.map(|ri| ri.stats)`
  abbrev pub stats_of : State im dm × Result RemoteInfo → State im dm × Result RemoteStats
  stats_of (s, ok ri) = (s, ok ri.stats)
  stats_of (s, err e) = (s, err e)

  unfoldable pub remove_remote : State im dm → Text → Text → State im dm × Result RemoteStats
  remove_remote s tunnel remote = on_parsed s (socket_spec_from_str nom tunnel) λ local.
      on_parsed s (socket_spec_from_str nom remote)
        λ r. stats_of (remove_remote_from_tunnel im dm s local r)
