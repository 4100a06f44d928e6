-- ===== src/Peer/Machine/Closing.antt =====
-- p2p/peer/peer.go: closing a peer, and its next connection.
use dscuss.Prelude.{ℕ, ◌<◌, ◌≡◌, false, Memᴰ, some, ok}
use dscuss.Subs.Topic.{Topic}
use dscuss.Subs.Subscriptions
use dscuss.Entity.{Time, UserHistory, Entity}
use dscuss.Env.{Env}
use dscuss.Sqlite.{EntityDatabase}
use dscuss.Sqlite.ProfileDatabase.{get_user_history}
use dscuss.Peer.Receiving.{World}
use dscuss.Peer.Interest.{Known, is_interested_in_entity}
use dscuss.Peer.Machine.{Peer}

-- What the next connection finds of this one.
pub record IsRemembered (env : Env) (k : Known) (now : Time) (w : World) : Type 0 where
  pub history : UserHistory
  pub read : get_user_history env w.profile.db k.user.id ≡ ok history
  pub at : history.disconnected ≡ now
  pub from : (t : Topic) → Memᴰ t history.subs → Memᴰ t k.subs
  pub onto : (t : Topic) → Memᴰ t k.subs → Memᴰ t history.subs
  pub nothing_new :
      (db : EntityDatabase) (fuel : ℕ) (e : Entity) (stored : Time)
      → stored < now
      → is_interested_in_entity env db fuel
          (record { user = k.user; subs = k.subs; hist = some history })
          e
          stored
        ≡ some (ok false)
