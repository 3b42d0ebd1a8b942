-- ===== src/Sockets/Keeps.antt =====
-- The two directions of the subscriptions of api/websocket/manager.py agree after every call.
use mini_hft_system.Prelude.{
  ◌≡◌, ◌∙◌, refl, sym, ap, List, [], ◌∷◌, true, false, not, ◌&&◌, ◌||◌, ◌==◌, ==_iff, arith,
  if◌then◌else◌, Bool-cases, inl, inr, Option-cases,
}
use mini_hft_system.Prelude.Dict
use mini_hft_system.Prelude.Sets.{has, insert_new, discard, has-insert_new, has-discard}
use mini_hft_system.Prelude.Tests.{nat_eq, text_eq, text_beq, text_beq_iff}
use mini_hft_system.Types.{Symbol}
use mini_hft_system.Sockets.{
  Socket, ConnectionManager, new_manager, set_or_empty, symbols_of, sockets_of, connected, is_there,
  connect, discard_all, disconnect, subscribe_to, subscribe_all, unsubscribe,
}

-- A connection has a symbol exactly if the symbol has the connection, and only open connections are among
-- the global subscribers.
pub record IsManager (m : ConnectionManager) : Type 0 where
  pub linked :
      (ws : Socket) (s : Symbol) → has s (symbols_of m ws) ≡ has ws (sockets_of m.symbol_subs s)
  pub open_only : (ws : Socket) → connected m ws ≡ false → has ws m.global_subs ≡ false

sockets_of-put :
    (s t : Symbol) (x : List Socket) (subs : List (Symbol × List Socket))
    → sockets_of (Dict.put s x subs) t ≡ (if text_beq s t then x else sockets_of subs t)
sockets_of-put s t x subs = ap set_or_empty (Dict.get-put s t x subs) ∙ ground arith

symbols-put :
    (m : ConnectionManager) (ws x : Socket) (ss : List Symbol)
    → set_or_empty (Dict.get x (Dict.put ws ss m.connections))
      ≡ (if ws == x then ss else symbols_of m x)
symbols-put m ws x ss = ap set_or_empty (Dict.get-put ws x ss m.connections) ∙ ground arith

-- Closing all subscriptions of a connection takes it off the symbols it had, and changes no other.
has-discard_all :
    (ws : Socket) (ss : List Symbol) (subs : List (Symbol × List Socket)) (x : Socket) (t : Symbol)
    → has x (sockets_of (discard_all ws ss subs) t)
      ≡ (not (ws == x && has t ss) && has x (sockets_of subs t))
unfolding discard_all has
has-discard_all ws [] subs x t = ground arith
has-discard_all ws (s ∷ ss) subs x t = ground (
  arith,
  has-discard_all ws ss (Dict.put s (discard ws (sockets_of subs s)) subs) x t,
  sockets_of-put s t (discard ws (sockets_of subs s)) subs,
  has-discard x ws (sockets_of subs s),
  text_beq_iff s t,
)

there-put :
    (m : ConnectionManager) (ws x : Socket) (ss : List Symbol)
    → is_there (Dict.get x (Dict.put ws ss m.connections)) ≡ (ws == x || connected m x)
there-put m ws x ss = ap is_there (Dict.get-put ws x ss m.connections) ∙ ground arith

pub there-del :
    (m : ConnectionManager) (ws x : Socket)
    → is_there (Dict.get x (Dict.del ws m.connections)) ≡ (not (ws == x) && connected m x)
there-del m ws x = ap is_there (Dict.get-del ws x m.connections) ∙ ground arith

symbols-del :
    (m : ConnectionManager) (ws x : Socket)
    → set_or_empty (Dict.get x (Dict.del ws m.connections))
      ≡ (if ws == x then [] else symbols_of m x)
symbols-del m ws x = ap set_or_empty (Dict.get-del ws x m.connections) ∙ ground arith

no_symbols : (m : ConnectionManager) (ws : Socket) → connected m ws ≡ false → symbols_of m ws ≡ []
no_symbols m ws h = elim (Option-cases (Dict.get ws m.connections)) [
  | inl e ↦ rw e refl
  | inr (s, e) ↦ absurd (let c : true ≡ false = sym (ap is_there e) ∙ h in cc)
]

pub new_manager-IsManager : IsManager new_manager
unfolding Dict.get has
new_manager-IsManager = record { linked = λ ws s. refl; open_only = λ ws h. refl }

module _ (m : ConnectionManager) (v : IsManager m) (ws : Socket) where
  pub connect-IsManager : connected m ws ≡ false → IsManager (connect m ws)
  unfolding connect has
  connect-IsManager h = record {
    linked = λ x s.
        ground (
          arith,
          symbols-put m ws x [],
          v.linked x s,
          v.linked ws s,
          no_symbols m ws h,
          ==_iff ws x,
        );
    open_only = λ x g. v.open_only x (ground (arith, g, there-put m ws x []));
  }

  pub disconnect-IsManager : IsManager (disconnect m ws)
  unfolding disconnect has
  disconnect-IsManager = record {
    linked = λ x s. ground (
      arith,
      symbols-del m ws x,
      v.linked x s,
      v.linked ws s,
      ==_iff ws x,
      has-discard_all ws (symbols_of m ws) m.symbol_subs x s,
    );
    open_only =
        λ x g. ground (arith, g, there-del m ws x, has-discard x ws m.global_subs, v.open_only x);
  }

  pub subscribe_to-IsManager : (s : Symbol) → IsManager (subscribe_to m ws s)
  unfolding subscribe_to
  subscribe_to-IsManager s = elim (Bool-cases (connected m ws)) [
    | inr e ↦ rw (e, subscribe_to) v
    | inl e ↦
        rw (e, subscribe_to)
          (record {
            linked = λ x t. ground (
              arith,
              symbols-put m ws x (insert_new s (symbols_of m ws)),
              v.linked x t,
              has-insert_new t s (symbols_of m ws),
              sockets_of-put s t (insert_new ws (sockets_of m.symbol_subs s)) m.symbol_subs,
              has-insert_new x ws (sockets_of m.symbol_subs s),
              ==_iff ws x,
              text_beq_iff s t,
            );
            open_only = λ x g.
                v.open_only x
                  (ground (arith, g, there-put m ws x (insert_new s (symbols_of m ws))));
          })
  ]

  pub subscribe_all-IsManager : IsManager (subscribe_all m ws)
  unfolding subscribe_all
  subscribe_all-IsManager = elim (Bool-cases (connected m ws)) [
    | inr e ↦ rw (e, subscribe_all) v
    | inl e ↦
        rw (e, subscribe_all)
          (record {
            linked = v.linked;
            open_only = λ x g. ground (
              arith,
              has-insert_new x ws m.global_subs,
              v.open_only x g,
              ==_iff ws x,
              apart x e g,
            );
          })
  ]
    where
      apart : (x : Socket) → connected m ws ≡ true → connected m x ≡ false → (ws == x) ≡ false
      apart x e g = elim (Bool-cases (ws == x)) [
        | inr n ↦ n
        | inl y ↦
            let same : ws ≡ x = (==_iff ws x).0 y in
            absurd (let c : true ≡ false = sym e ∙ ap (connected m) same ∙ g in cc)
      ]

  pub unsubscribe-IsManager : (s : Symbol) → IsManager (unsubscribe m ws s)
  unfolding unsubscribe
  unsubscribe-IsManager s = elim (Bool-cases (connected m ws)) [
    | inr e ↦ rw (e, unsubscribe) v
    | inl e ↦
        rw (e, unsubscribe)
          (record {
            linked = λ x t. ground (
              arith,
              symbols-put m ws x (discard s (symbols_of m ws)),
              v.linked x t,
              has-discard t s (symbols_of m ws),
              sockets_of-put s t (discard ws (sockets_of m.symbol_subs s)) m.symbol_subs,
              has-discard x ws (sockets_of m.symbol_subs s),
              ==_iff ws x,
              text_beq_iff s t,
            );
            open_only = λ x g.
                v.open_only x (ground (arith, g, there-put m ws x (discard s (symbols_of m ws))));
          })
  ]
