-- ===== src/Sockets/Broadcast.antt =====
-- Who gets a broadcast of api/websocket/manager.py, and who is connected after it; sequences of calls.
use mini_hft_system.Prelude.{
  ◌≡◌, refl, ap, List, [], ◌∷◌, Bool, false, not, ◌&&◌, ◌||◌, ◌==◌, ==_iff, arith, Bool-cases, inl,
  inr,
}
use mini_hft_system.Prelude.Dict
use mini_hft_system.Prelude.Sets.{has, union, has-union}
use mini_hft_system.Prelude.Tests.{nat_eq, text_eq}
use mini_hft_system.Types.{Symbol}
use mini_hft_system.Sockets.{
  Socket, ConnectionManager, new_manager, symbols_of, sockets_of, connected, connect, disconnect,
  disconnect_all, dead_of, broadcast_to_symbol, broadcast_all, subscribe_to, subscribe_all,
  unsubscribe, send_personal,
}
use mini_hft_system.Sockets.Keeps.{
  IsManager, there-del, new_manager-IsManager, connect-IsManager, disconnect-IsManager,
  subscribe_to-IsManager, subscribe_all-IsManager, unsubscribe-IsManager,
}

has-dead_of :
    (fails : Socket → Bool) (ts : List Socket) (x : Socket)
    → has x (dead_of fails ts) ≡ (has x ts && fails x)
unfolding has
has-dead_of fails [] x = refl
has-dead_of fails (t ∷ ts) x = elim (Bool-cases (t == x)) [
  | inl e ↦
      let same : t ≡ x = (==_iff t x).0 e in ground (arith, has-dead_of fails ts x, ap fails same)
  | inr e ↦ ground (arith, has-dead_of fails ts x, e)
]

disconnect-connected :
    (m : ConnectionManager) (ws x : Socket)
    → connected (disconnect m ws) x ≡ (not (ws == x) && connected m x)
unfolding disconnect
disconnect-connected m ws x = there-del m ws x

disconnect_all-connected :
    (m : ConnectionManager) (ds : List Socket) (x : Socket)
    → connected (disconnect_all m ds) x ≡ (not (has x ds) && connected m x)
unfolding disconnect_all has
disconnect_all-connected m [] x = refl
disconnect_all-connected m (d ∷ ds) x =
    ground (arith, disconnect_all-connected (disconnect m d) ds x, disconnect-connected m d x)

disconnect_all-IsManager :
    (m : ConnectionManager) (ds : List Socket) → IsManager m → IsManager (disconnect_all m ds)
unfolding disconnect_all
disconnect_all-IsManager m [] v = v
disconnect_all-IsManager m (d ∷ ds) v =
    disconnect_all-IsManager (disconnect m d) ds (disconnect-IsManager m v d)

module _ (fails : Socket → Bool) (m : ConnectionManager) (v : IsManager m) (s : Symbol) where
  -- A broadcast for a symbol is sent to exactly the connections that have subscribed to the symbol or to
  -- everything; after it exactly those are connected that were before and to which sending did not raise,
  -- and the subscriptions are consistent. It holds of every consistent manager.
  pub broadcast_to_symbol_lem :
      let t = broadcast_to_symbol fails m s in
      ((ws : Socket) → has ws t.0 ≡ (has s (symbols_of m ws) || has ws m.global_subs))
      × ((ws : Socket) → connected t.1 ws ≡ (not (has ws t.0 && fails ws) && connected m ws))
      × IsManager t.1
  unfolding broadcast_to_symbol
  broadcast_to_symbol_lem =
      let targets = union (sockets_of m.symbol_subs s) m.global_subs in
      (
        λ ws.
            ground (arith, has-union ws (sockets_of m.symbol_subs s) m.global_subs, v.linked ws s),
        λ ws. ground (
          arith,
          disconnect_all-connected m (dead_of fails targets) ws,
          has-dead_of fails targets ws,
        ),
        disconnect_all-IsManager m (dead_of fails targets) v,
      )

-- The calls on a manager. A connection that is accepted is new.
pub data ManagerCall (m : ConnectionManager) : ConnectionManager → Type 0 where
  connects : (ws : Socket) → connected m ws ≡ false → ManagerCall m (connect m ws)
  disconnects : (ws : Socket) → ManagerCall m (disconnect m ws)
  subscribes : (ws : Socket) (s : Symbol) → ManagerCall m (subscribe_to m ws s)
  subscribes_all : (ws : Socket) → ManagerCall m (subscribe_all m ws)
  unsubscribes : (ws : Socket) (s : Symbol) → ManagerCall m (unsubscribe m ws s)
  broadcasts :
      (fails : Socket → Bool) (s : Symbol) → ManagerCall m (broadcast_to_symbol fails m s).1
  broadcasts_all : (fails : Socket → Bool) → ManagerCall m (broadcast_all fails m).1
  sends : (fails : Socket → Bool) (ws : Socket) → ManagerCall m (send_personal fails m ws)

pub data ManagerReach : ConnectionManager → Type 0 where
  started : ManagerReach new_manager
  then_call : {m m' : ConnectionManager} → ManagerReach m → ManagerCall m m' → ManagerReach m'

ManagerCall-IsManager : {m m' : ConnectionManager} → IsManager m → ManagerCall m m' → IsManager m'
unfolding broadcast_to_symbol broadcast_all send_personal
ManagerCall-IsManager {m} v (connects ws h) = connect-IsManager m v ws h
ManagerCall-IsManager {m} v (disconnects ws) = disconnect-IsManager m v ws
ManagerCall-IsManager {m} v (subscribes ws s) = subscribe_to-IsManager m v ws s
ManagerCall-IsManager {m} v (subscribes_all ws) = subscribe_all-IsManager m v ws
ManagerCall-IsManager {m} v (unsubscribes ws s) = unsubscribe-IsManager m v ws s
ManagerCall-IsManager {m} v (broadcasts fails s) =
    disconnect_all-IsManager m (dead_of fails (union (sockets_of m.symbol_subs s) m.global_subs)) v
ManagerCall-IsManager {m} v (broadcasts_all fails) =
    disconnect_all-IsManager m (dead_of fails (Dict.keys m.connections)) v
ManagerCall-IsManager {m} v (sends fails ws) = elim (Bool-cases (fails ws)) [
  | inl e ↦ rw (e, send_personal) (disconnect-IsManager m v ws)
  | inr e ↦ rw (e, send_personal) v
]

-- After any sequence of calls from a new manager in which `connect` is only called for a connection that is
-- not connected, the two directions of the subscriptions agree, and only open connections are among the
-- global subscribers. All other calls are unrestricted.
pub ManagerReach-IsManager : {m : ConnectionManager} → ManagerReach m → IsManager m
ManagerReach-IsManager started = new_manager-IsManager
ManagerReach-IsManager (then_call r c) = ManagerCall-IsManager (ManagerReach-IsManager r) c
