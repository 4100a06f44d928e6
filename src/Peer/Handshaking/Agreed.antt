-- ===== src/Peer/Handshaking/Agreed.antt =====
-- p2p/peer/state_handshaking.go: what the node knows of the peer after the handshake.
use dscuss.Prelude.{
  subst, invalid_peer, ◌≡◌, refl, Bool, true, false, not, [], if◌then◌else◌, Option, none, some,
  Result, Outcome, ok, err, fatal, Error,
}
use dscuss.Entity.{User, UserHistory}
use dscuss.Subs.Subscriptions
use dscuss.Subs.Subscriptions.{Subscriptions}
use dscuss.Env.{Env}
use dscuss.Sqlite.{EntityDatabase, has_user}
use dscuss.Sqlite.ProfileDatabase.{get_user_history}
use dscuss.Storage.{Storage}
use dscuss.Peer.Receiving.{World}
use dscuss.Peer.Interest.{Known}
use dscuss.Peer.Handshaking.{
  Own, Introduction, Hand, Shaken, validated, stored_user, after_put, finalize_user, finalize,
  exchange, if_introduced, perform,
}
use dscuss.Peer.Handshaking.Introduced.{IsTrusted, Trusts, Inv, exchange-Inv}
use dscuss.Peer.Handshaking.Stored.{stored_user-has_user}
use dscuss.Peer.Handshaking.Greeted.{HasSubs, exchange-HasSubs}

-- What the node knows after the handshake.
pub record IsIntroduced (env : Env) (i : Introduction) (before after : EntityDatabase) (k : Known)
    : Type 0 where
  pub trusted : IsTrusted env i before k.user
  pub subs_valid : Subscriptions.is_valid k.subs ≡ true
  pub vouched : i.validate_peer k.user.id ≡ true
  pub stored : has_user after k.user.id ≡ true

abbrev IntroducesAt : Env → Introduction → EntityDatabase → Result Known × World → Type 0
IntroducesAt env i before (ok k, w) = IsIntroduced env i before w.storage.db k
IntroducesAt env i before (err e, w) = Unit {0}
IntroducesAt env i before (fatal, w) = Unit {0}

module _ (env : Env) (own : Own) (i : Introduction) (before : EntityDatabase) where
  validated-IsIntroduced :
      (u : User) (s : Subscriptions) (w : World) (hist : Result UserHistory)
      → IsTrusted env i before u
      → Subscriptions.is_valid s ≡ true
      → has_user w.storage.db u.id ≡ true
      → IntroducesAt env i before (validated env i u s w hist)
  validated-IsIntroduced u s w hist t v h = by_answer (i.validate_peer u.id) refl hist
    where
      known : Option UserHistory → Known
      known o = record { user = u; subs = s; hist = o }

      facts :
          (o : Option UserHistory)
          → i.validate_peer u.id ≡ true
          → IsIntroduced env i before w.storage.db (known o)
      facts o e = record { trusted = t; subs_valid = v; vouched = e; stored = h }

      by_answer :
          (b : Bool)
          → i.validate_peer u.id ≡ b
          → (r : Result UserHistory)
          → IntroducesAt env i before (
              if not b then (err invalid_peer, w) else elim r [
                | ok h ↦ (ok (record { user = u; subs = s; hist = some h }), w)
                | err Error.no_user_history ↦ (ok (record { user = u; subs = s; hist = none }), w)
                | err e ↦ (fatal, w)
                | fatal ↦ (fatal, w)
              ])
      by_answer true e (ok h) = facts (some h) e
      by_answer true e (err Error.no_user_history) = facts none e
      by_answer true e (err x) = tt
      by_answer true e fatal = tt
      by_answer false e r = tt

  after_put-IsIntroduced :
      (u : User) (s : Subscriptions) (r : Outcome × World)
      → IsTrusted env i before u
      → Subscriptions.is_valid s ≡ true
      → has_user r.1.storage.db u.id ≡ true
      → IntroducesAt env i before (after_put env i u s r)
  unfolding after_put
  after_put-IsIntroduced u s (ok x, w) t v h =
      validated-IsIntroduced u s w (get_user_history env w.profile.db u.id) t v h
  after_put-IsIntroduced u s (err e, w) t v h = tt
  after_put-IsIntroduced u s (fatal, w) t v h = tt

  finalize_user-IsIntroduced :
      (st : Storage) (h : Hand) (u : Option User)
      → st.db ≡ before
      → Trusts env own i st u
      → Subscriptions.is_valid h.s ≡ true
      → IntroducesAt env i before (finalize_user env own i h u)
  unfolding finalize_user
  finalize_user-IsIntroduced st h none e t v = tt
  finalize_user-IsIntroduced st h (some u) e t v =
      after_put-IsIntroduced u h.s (stored_user own i u h.world)
        (subst (λ d. IsTrusted env i d u) e t) v (stored_user-has_user own i u h.world)

  if_introduced-IsIntroduced :
      (st : Storage) (r : Shaken)
      → st.db ≡ before
      → Inv env own i st r.1
      → HasSubs r
      → IntroducesAt env i before (if_introduced env own i r)
  unfolding if_introduced finalize
  if_introduced-IsIntroduced st (ok x, h) e v s = finalize_user-IsIntroduced st h h.u e v.trusts s
  if_introduced-IsIntroduced st (err x, h) e v s = tt
  if_introduced-IsIntroduced st (fatal, h) e v s = tt

pub perform-IsIntroduced :
    (env : Env) (own : Own) (i : Introduction) (w w' : World) (k : Known)
    → perform env own i w ≡ (ok k, w')
    → IsIntroduced env i w.storage.db w'.storage.db k
unfolding perform
perform-IsIntroduced env own i w w' k e =
    let start : Hand = record { u = none; s = []; world = w } in
    subst (IntroducesAt env i w.storage.db) e (
      if_introduced-IsIntroduced env own i w.storage.db w.storage (exchange env own i start) refl
        (exchange-Inv env own i w.storage start (record { same_storage = refl; trusts = tt }))
        (exchange-HasSubs env own i start))
