-- ===== src/Peer/Interest/History.antt =====
-- p2p/peer/peer.go: the history of a peer, and what the peer is interested in after it.
use dscuss.Prelude.{
  Memᴰ, ℕ, ◌<◌, ◌≡◌, refl, ap, ◌∙◌, arith, true, false, [], ◌∷◌, ltb, all, all_intro, any_of_mem,
  if◌then◌else◌, some, ok,
}
use dscuss.Subs.Topic.{Topic, contains_topic}
use dscuss.Subs.Topic.Tags.{contains_topic_refl}
use dscuss.Subs.Subscriptions.{Subscriptions, covers, diff, diff_from}
use dscuss.Entity.{Time, User, UserHistory, Entity}
use dscuss.Env.{Env}
use dscuss.Sqlite.{EntityDatabase}
use dscuss.Peer.Interest.{is_interested_by, is_interested_in_entity}

diff_from-covered : (a s : Subscriptions) → all (λ t. covers a t) s ≡ true → diff_from a [] s ≡ []
unfolding diff_from
diff_from-covered a [] h = refl
diff_from-covered a (t ∷ ts) h = rw (covers_first, diff_from-covered a ts (ground arith))
  where
    covers_first : covers a t ≡ true
    covers_first = ground arith

pub diff_covered : (s a : Subscriptions) → ((t : Topic) → Memᴰ t s → Memᴰ t a) → diff s a ≡ []
unfolding diff covers
diff_covered s a h = diff_from-covered a s (
    all_intro (λ t. covers a t) s
      (λ t m. any_of_mem (λ u. contains_topic u t) a (h t m) (contains_topic_refl t)))

-- A peer that comes back with topics of its history only is interested in no entity that was stored
-- before it was last disconnected.
pub is_interested_in_entity-history :
    (env : Env) (db : EntityDatabase) (fuel : ℕ) (u : User) (subs : Subscriptions) (h : UserHistory)
    (e : Entity) (stored : Time)
    → ((t : Topic) → Memᴰ t subs → Memᴰ t h.subs)
    → stored < h.disconnected
    → is_interested_in_entity env db fuel (record { user = u; subs = subs; hist = some h }) e stored
      ≡ some (ok false)
unfolding is_interested_in_entity is_interested_by
is_interested_in_entity-history env db fuel u subs h e stored old lt =
    let before : ltb stored h.disconnected ≡ true = ground arith in
    ap (λ s. is_interested_by env db fuel s e)
      (ap (λ b. if b then diff subs h.subs else subs) before ∙ diff_covered subs h.subs old)
