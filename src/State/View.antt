-- ===== src/State/View.antt =====
-- What an observer sees of the state: a tunnel's live and dead remotes by their addresses.
use plexy.Prelude.{Option, none, some}
use plexy.Tunnel.{SocketSpec}
use plexy.Maps.{KeyedMap, IndexMap}
use plexy.State.Remote.{RemoteInfo}
use plexy.State.Info.{DeadRemote}
use plexy.State.Store.{State}

module _ (im : IndexMap) (dm : KeyedMap) where
  abbrev pub live_remote : State im dm → SocketSpec → SocketSpec → Option RemoteInfo
  live_remote s l r = elim (dm.get l s.tunnels) [ none ↦ none | some ti ↦ im.get r ti.remotes ]

  abbrev pub dead_remote : State im dm → SocketSpec → SocketSpec → Option DeadRemote
  dead_remote s l r = elim (dm.get l s.tunnels) [ none ↦ none | some ti ↦ im.get r ti.dead_remotes ]
