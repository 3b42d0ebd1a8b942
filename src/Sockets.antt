-- ===== src/Sockets.antt =====
-- `ConnectionManager` of api/websocket/manager.py. A connection is known by a number. Sending is not under
-- the manager's control: `fails` says at which connections it raises.
pub mod Keeps
pub mod Broadcast
mod Tests
use mini_hft_system.Prelude.{
  ℕ, List, [], ◌∷◌, Option, none, some, Bool, true, false, ◌==◌, length, if◌then◌else◌,
}
use mini_hft_system.Prelude.Dict
use mini_hft_system.Prelude.Sets.{has, insert_new, discard, union}
use mini_hft_system.Prelude.Tests.{nat_eq, text_eq}
use mini_hft_system.Types.{Symbol}

abbrev pub Socket : Type 0
Socket = ℕ

pub record ConnectionManager : Type 0 where
  pub connections : List (Socket × List Symbol)
  pub symbol_subs : List (Symbol × List Socket)
  pub global_subs : List Socket

abbrev pub new_manager : ConnectionManager
new_manager = record { connections = []; symbol_subs = []; global_subs = [] }

abbrev pub set_or_empty {ℓ} : {A : Type ℓ} → Option (List A) → List A
set_or_empty none = []
set_or_empty (some s) = s

-- The symbols of a connection, and the connections of a symbol.
abbrev pub symbols_of : ConnectionManager → Socket → List Symbol
symbols_of m ws = set_or_empty (Dict.get ws m.connections)

abbrev pub sockets_of : List (Symbol × List Socket) → Symbol → List Socket
sockets_of subs s = set_or_empty (Dict.get s subs)

abbrev pub is_there {ℓ} : {A : Type ℓ} → Option A → Bool
is_there none = false
is_there (some a) = true

-- `ws in self._connections`
abbrev pub connected : ConnectionManager → Socket → Bool
connected m ws = is_there (Dict.get ws m.connections)

-- `connect`, once the connection is accepted.
unfoldable pub connect : ConnectionManager → Socket → ConnectionManager
connect m ws = record m { connections = Dict.put ws [] m.connections }

-- `self._symbol_subs[sym].discard(ws)` for each symbol; the `defaultdict` stores an empty set.
unfoldable pub discard_all :
    Socket → List Symbol → List (Symbol × List Socket) → List (Symbol × List Socket)
discard_all ws [] subs = subs
discard_all ws (s ∷ ss) subs = discard_all ws ss (Dict.put s (discard ws (sockets_of subs s)) subs)

unfoldable pub disconnect : ConnectionManager → Socket → ConnectionManager
disconnect m ws = record {
  connections = Dict.del ws m.connections;
  symbol_subs = discard_all ws (symbols_of m ws) m.symbol_subs;
  global_subs = discard ws m.global_subs;
}

unfoldable pub subscribe_to : ConnectionManager → Socket → Symbol → ConnectionManager
subscribe_to m ws s =
    if connected m ws
    then record m {
      connections = Dict.put ws (insert_new s (symbols_of m ws)) m.connections;
      symbol_subs = Dict.put s (insert_new ws (sockets_of m.symbol_subs s)) m.symbol_subs;
    }
    else m

unfoldable pub subscribe_all : ConnectionManager → Socket → ConnectionManager
subscribe_all m ws =
    if connected m ws then record m { global_subs = insert_new ws m.global_subs } else m

unfoldable pub unsubscribe : ConnectionManager → Socket → Symbol → ConnectionManager
unsubscribe m ws s =
    if connected m ws
    then record m {
      connections = Dict.put ws (discard s (symbols_of m ws)) m.connections;
      symbol_subs = Dict.put s (discard ws (sockets_of m.symbol_subs s)) m.symbol_subs;
    }
    else m

-- The connections where sending raises.
abbrev pub dead_of : (Socket → Bool) → List Socket → List Socket
dead_of fails [] = []
dead_of fails (ws ∷ rest) = let dead = dead_of fails rest in if fails ws then ws ∷ dead else dead

unfoldable pub disconnect_all : ConnectionManager → List Socket → ConnectionManager
disconnect_all m [] = m
disconnect_all m (ws ∷ rest) = disconnect_all (disconnect m ws) rest

-- `broadcast_to_symbol`: the connections that are sent to, and the manager after it.
unfoldable pub broadcast_to_symbol :
    (Socket → Bool) → ConnectionManager → Symbol → List Socket × ConnectionManager
broadcast_to_symbol fails m s =
    let targets = union (sockets_of m.symbol_subs s) m.global_subs in
    (targets, disconnect_all m (dead_of fails targets))

unfoldable pub broadcast_all : (Socket → Bool) → ConnectionManager → List Socket × ConnectionManager
broadcast_all fails m =
    let targets = Dict.keys m.connections in (targets, disconnect_all m (dead_of fails targets))

unfoldable pub send_personal : (Socket → Bool) → ConnectionManager → Socket → ConnectionManager
send_personal fails m ws = if fails ws then disconnect m ws else m

abbrev pub connection_count : ConnectionManager → ℕ
connection_count m = length m.connections

abbrev pub global_subscriber_count : ConnectionManager → ℕ
global_subscriber_count m = length m.global_subs

abbrev pub subscriber_count : ConnectionManager → Symbol → ℕ
subscriber_count m s = length (sockets_of m.symbol_subs s)
