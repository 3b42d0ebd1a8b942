-- ===== src/Sockets/Tests.antt =====
-- A manager with two connections, one of which has subscribed to a symbol.
use mini_hft_system.Prelude.{◌≡◌, refl, [], ◌∷◌, Bool, false, not, ◌&&◌, ◌||◌, ◌==◌}
use mini_hft_system.Prelude.Dict
use mini_hft_system.Prelude.Sets.{has}
use mini_hft_system.Prelude.Tests.{nat_eq, text_eq}
use mini_hft_system.Types.{Symbol}
use mini_hft_system.Sockets.{
  Socket, ConnectionManager, new_manager, connect, subscribe_to, connected, symbols_of,
  broadcast_to_symbol,
}
use mini_hft_system.Sockets.Broadcast.{
  ManagerReach, started, then_call, connects, subscribes, ManagerReach-IsManager,
  broadcast_to_symbol_lem,
}
use mini_hft_system.Sockets.Keeps.{IsManager}

abbrev name : Symbol
name = 65 ∷ []

abbrev manager2 : ConnectionManager
manager2 = connect (connect new_manager 1) 2

abbrev manager : ConnectionManager
manager = subscribe_to manager2 1 name

fresh1 : connected new_manager 1 ≡ false
unfolding Dict.get
fresh1 = refl

fresh2 : connected (connect new_manager 1) 2 ≡ false
unfolding connect Dict.get Dict.put
fresh2 = refl

manager-ManagerReach : ManagerReach manager
manager-ManagerReach =
    then_call (then_call (then_call started (connects 1 fresh1)) (connects 2 fresh2))
      (subscribes 1 name)

ManagerReach-IsManager_example : IsManager manager
ManagerReach-IsManager_example = ManagerReach-IsManager manager-ManagerReach

abbrev fails : Socket → Bool
fails ws = ws == 1

broadcast_to_symbol_lem_example :
    ((ws : Socket)
      → has ws (broadcast_to_symbol fails manager name).0
        ≡ (has name (symbols_of manager ws) || has ws manager.global_subs))
    × ((ws : Socket)
        → connected (broadcast_to_symbol fails manager name).1 ws ≡ (
            not (has ws (broadcast_to_symbol fails manager name).0 && fails ws)
            && connected manager ws))
    × IsManager (broadcast_to_symbol fails manager name).1
broadcast_to_symbol_lem_example =
    broadcast_to_symbol_lem fails manager (ManagerReach-IsManager manager-ManagerReach) name
