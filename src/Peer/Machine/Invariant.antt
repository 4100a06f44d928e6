-- ===== src/Peer/Machine/Invariant.antt =====
-- p2p/peer/peer.go: what holds in every state that a peer reaches.
use dscuss.Prelude.{◌≡◌, refl, ap, Bool, true, false, if◌then◌else◌, Option, none, some}
use dscuss.Entity.{Time}
use dscuss.Env.{Env}
use dscuss.Peer.Receiving.{World}
use dscuss.Peer.Interest.{Known}
use dscuss.Peer.Handshaking.{Own, Introduction}
use dscuss.Peer.Handshaking.Agreed.{IsIntroduced, perform-IsIntroduced}
use dscuss.Peer.Syncing.{State, handshaking}
use dscuss.Peer.Machine.{
  Peer, new, detached, save_history, is_synced, close_known, close, Step, Reached,
}
use dscuss.Peer.Machine.Order.{is_nested, Step-Follows}

-- The handshake that made the peer known, and the worlds around it.
pub record IsMet (env : Env) (own : Own) (k : Known) : Type 0 where
  pub introduction : Introduction
  pub before : World
  pub after : World
  pub facts : IsIntroduced env introduction before.storage.db after.storage.db k

abbrev pub IsAcquainted : Env → Own → State → Option Known → Type 0
IsAcquainted env own s none = s ≡ handshaking
IsAcquainted env own s (some k) = IsMet env own k

pub record IsSound (env : Env) (p : Peer) : Type 0 where
  pub nested : is_nested p.state ≡ true
  pub acquainted : IsAcquainted env p.own p.state p.known

Step-IsSound : (env : Env) (p q : Peer) → Step env p q → IsSound env p → IsSound env q
unfolding is_nested
Step-IsSound env p q st v = record {
  nested = (Step-Follows env p q st v.nested).nested;
  acquainted = keeps p q st v.acquainted;
}
  where
    keeps :
        (p q : Peer)
        → Step env p q
        → IsAcquainted env p.own p.state p.known
        → IsAcquainted env q.own q.state q.known
    keeps p q (Step.handshaken own k0 w w' g i k e) a = record {
      introduction = i;
      before = w;
      after = w';
      facts = perform-IsIntroduced env own i w w' k e;
    }
    keeps p q (Step.synced own k w w' g a t s e) m = m
    keeps p q (Step.heard own k w w' g r now s e) m = m
    keeps p q (Step.woken own k w w' g turns s e) m = m
    keeps p q (Step.received own k w w' g pkt s turns fuel now ack acked e) m = m
    keeps p q (Step.sent own k w w' g x stored s fuel now o turns e) m = m
    keeps p q (Step.changed own k w w' g s) m = m

pub Reached-IsSound : (env : Env) (p : Peer) → Reached env p → IsSound env p
unfolding new is_nested
Reached-IsSound env p (Reached.start own w) = record { nested = refl; acquainted = refl }
Reached-IsSound env p (Reached.step q r reached st) =
    Step-IsSound env q r st (Reached-IsSound env q reached)

-- In every state that a peer reaches, `Close` finds the user that it needs: it returns.
pub close_total :
    (env : Env) (p : Peer) (now : Time) → Reached env p → (w : World) × (close p now ≡ some w)
unfolding close is_synced
close_total env p now r = by_known p.known (Reached-IsSound env p r).acquainted
  where
    by_known :
        (k : Option Known)
        → IsAcquainted env p.own p.state k
        → (w : World) × ((if is_synced p.state
              then close_known p k now
              else some (detached p.own p.world))
            ≡ some w)
    by_known (some k) m = by_state (is_synced p.state)
      where
        by_state :
            (b : Bool)
            → (w : World) × ((if b
                  then close_known p (some k) now
                  else some (detached p.own p.world))
                ≡ some w)
        by_state true = (detached p.own (save_history p k now), refl)
        by_state false = (detached p.own p.world, refl)
    by_known none e = (
      detached p.own p.world,
      ap (λ s. if is_synced s then close_known p none now else some (detached p.own p.world)) e,
    )
