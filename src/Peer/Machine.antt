-- ===== src/Peer/Machine.antt =====
-- p2p/peer/peer.go: a peer from `New` to `Close`, and the steps of `run` between the states.
pub mod Invariant
pub mod Order
pub mod Closing
use dscuss.Prelude.{
  ℕ, ◌≡◌, Bool, true, false, List, [], ◌∷◌, if◌then◌else◌, Option, none, some, Result, Outcome, ok,
  err, fatal, Error, closed_connection,
}
use dscuss.Entity.{Time, UserHistory, Entity}
use dscuss.Packet.{Packet}
use dscuss.Env.{Env}
use dscuss.Sqlite.ProfileDatabase.{put_user_history}
use dscuss.Storage.{attach_observer, detach_observer}
use dscuss.Peer.Receiving.{Session, World, Turn, next}
use dscuss.Peer.Receiving.Performing
use dscuss.Peer.Interest.{Known}
use dscuss.Peer.Sending
use dscuss.Peer.Sending.{SendTurn}
use dscuss.Peer.Handshaking
use dscuss.Peer.Handshaking.{Own, Introduction}
use dscuss.Peer.Syncing.{
  ActiveSync, State, handshaking, idle, passive_syncing, active_syncing, receiving, sending,
  new_state_active_syncing, Performed, switch, broken, exits, SyncTurn, sync_active, sync_passive,
  IdleTurn, idle_loop,
}

-- `Peer`; what the handshake sets is none before it.
pub record Peer : Type 0 where
  pub own : Own
  pub state : State
  pub known : Option Known
  pub world : World
  pub is_gone : Bool

unfoldable pub new : Own → World → Peer
unfolding attach_observer
new own w = record {
  own = own;
  state = handshaking;
  known = none;
  world = record w { storage = attach_observer w.storage own.out_entity_chan };
  is_gone = false;
}

abbrev pub session : Own → Known → Session
session own k = record {
  user = k.user;
  out_entity_chan = own.out_entity_chan;
  owner_id = own.user.id;
  signer = own.signer;
}

-- What `Close` takes for a peer that is synchronized.
unfoldable pub is_synced : State → Bool
is_synced handshaking = false
is_synced (active_syncing a) = false
is_synced passive_syncing = false
is_synced idle = true
is_synced (receiving p s) = true
is_synced (sending e t s) = true

unfoldable pub save_history : Peer → Known → Time → World
unfolding put_user_history
save_history p k now = record p.world {
  profile = record p.world.profile {
    db =
        put_user_history p.world.profile.db
          (record { id = k.user.id; disconnected = now; subs = k.subs });
  };
}

abbrev pub detached : Own → World → World
unfolding detach_observer
detached own w = record w { storage = detach_observer w.storage own.out_entity_chan }

abbrev pub close_known : Peer → Option Known → Time → Option World
unfolding save_history
close_known p (some k) now = some (detached p.own (save_history p k now))
close_known p none now = none

-- `Close` at the time `now`, when the state is as given; none is the use of a nil user.
unfoldable pub close : Peer → Time → Option World
unfolding is_synced close_known
close p now = if is_synced p.state then close_known p p.known now else some (detached p.own p.world)

-- What `run` does with an error: the peer is gone, unless its connection was closed.
unfoldable pub stop_by : Peer → Error → Peer
stop_by p closed_connection = p
stop_by p e = record p { is_gone = true }

-- One turn of the loop of `run`, with what each state gets from outside, or a change of the storage
-- and of the profile by the other parts of the program.
pub data Step (env : Env) : Peer → Peer → Type 0 where
  handshaken :
      (own : Own) (k0 : Option Known) (w w' : World) (g : Bool) (i : Introduction) (k : Known)
      → Handshaking.perform env own i w ≡ (ok k, w')
      → Step env
          (record { own = own; state = handshaking; known = k0; world = w; is_gone = g })
          (record {
            own = own;
            state = if own.is_active then new_state_active_syncing else passive_syncing;
            known = some k;
            world = w';
            is_gone = g;
          })
  synced :
      (own : Own) (k : Known) (w w' : World) (g : Bool) (a : ActiveSync) (t : SyncTurn) (s : State)
      → sync_active env (session own k) k own.is_active a t w ≡ switch s w'
      → Step env
          (record { own = own; state = active_syncing a; known = some k; world = w; is_gone = g })
          (record { own = own; state = s; known = some k; world = w'; is_gone = g })
  heard :
      (own : Own) (k : Known) (w w' : World) (g : Bool) (r : Result Packet) (now : Time) (s : State)
      → sync_passive env (session own k) own.is_active r now w ≡ switch s w'
      → Step env
          (record { own = own; state = passive_syncing; known = some k; world = w; is_gone = g })
          (record { own = own; state = s; known = some k; world = w'; is_gone = g })
  woken :
      (own : Own) (k : Known) (w w' : World) (g : Bool) (turns : List (World × IdleTurn))
      (s : State)
      → idle_loop own.out_entity_chan turns ≡ some (switch s w')
      → Step env
          (record { own = own; state = idle; known = some k; world = w; is_gone = g })
          (record { own = own; state = s; known = some k; world = w'; is_gone = g })
  received :
      (own : Own) (k : Known) (w w' : World) (g : Bool) (pkt : Packet) (s : State)
      (turns : ℕ → Turn) (fuel : ℕ) (now : Time) (ack : Outcome) (acked : Time)
      → Performing.perform env (session own k) turns fuel w pkt now ack acked ≡ some (next, w')
      → Step env
          (record { own = own; state = receiving pkt s; known = some k; world = w; is_gone = g })
          (record { own = own; state = s; known = some k; world = w'; is_gone = g })
  sent :
      (own : Own) (k : Known) (w w' : World) (g : Bool) (e : Entity) (stored : Time) (s : State)
      (fuel : ℕ) (now : Time) (o : Outcome) (turns : List SendTurn)
      → Sending.perform env (session own k) k fuel w e stored now o turns ≡ (some next, w')
      → Step env
          (record { own = own; state = sending e stored s; known = some k; world = w; is_gone = g })
          (record { own = own; state = s; known = some k; world = w'; is_gone = g })
  changed :
      (own : Own) (k : Option Known) (w w' : World) (g : Bool) (s : State)
      → Step env
          (record { own = own; state = s; known = k; world = w; is_gone = g })
          (record { own = own; state = s; known = k; world = w'; is_gone = g })

-- What `New` and the steps after it lead to.
pub data Reached (env : Env) : Peer → Type 0 where
  start : (own : Own) (w : World) → Reached env (new own w)
  step : (p q : Peer) → Reached env p → Step env p q → Reached env q
