-- ===== src/Peer/Receiving/Performing/Ending.antt =====
-- p2p/peer/state_receiving.go: how the loop of `perform` ends.
use dscuss.Prelude.{
  ℕ, zero, suc, ◌+◌, ◌≡◌, ◌≤◌, ◌<◌, refl, ap, ◌∙◌, List, [], ◌∷◌, length, length-append, arith,
  Option, some, Bool-cases, inl, inr, Result, Outcome, ok, err, fatal,
}
use dscuss.Entity.{EntityId, Time, Entity}
use dscuss.Packet.{Packet}
use dscuss.Env.{Env}
use dscuss.Storage.{has_entity}
use dscuss.Peer.Receiving.{max_pending_entities_num, Session, World, Turn, Ended, next}
use dscuss.Peer.Receiving.Performing.{
  Step, ask, stop, turn, loop, acknowledge, map_ended, received, perform, process_announce,
}
use dscuss.Peer.Receiving.Performing.Turns.{turn_asks}

-- The loop has ended.
abbrev pub HasEnded {ℓ} : {A : Type ℓ} → Option A → Type ℓ
HasEnded {A = A} o = (a : A) × (o ≡ some a)

loop-HasEnded :
    (env : Env) (s : Session) (turns : ℕ → Turn) (fuel : ℕ) (w : World) (id : EntityId)
    (pending : List Entity)
    → 0 < fuel
    → max_pending_entities_num ≤ fuel + length pending
    → HasEnded (loop env s turns fuel w id pending)
unfolding loop
loop-HasEnded env s turns zero w id pending h k = absurd (omega arith)
loop-HasEnded env s turns (suc fuel) w id pending h k =
    after (turn env s (turns (length pending)) w id pending) refl
      (λ w' id' pending'. loop-HasEnded env s turns fuel w' id' pending')
  where
    after :
        (t : Step)
        → turn env s (turns (length pending)) w id pending ≡ t
        → ((w' : World) (id' : EntityId) (pending' : List Entity)
            → 0 < fuel
            → max_pending_entities_num ≤ fuel + length pending'
            → HasEnded (loop env s turns fuel w' id' pending'))
        → HasEnded (loop env s turns (suc fuel) w id pending)
    after (ask id' pending' w') q rec =
        let (e, grown, same, room) =
          turn_asks env s (turns (length pending)) w w' id id' pending pending' q in
        let len = ap length grown ∙ length-append pending (e ∷ []) in
        rw (q, loop) (rec w' id' pending' (omega (arith, len, room, k)) (omega (arith, len, k)))
    after (stop e w') q rec = rw (q, loop) ((e, w'), refl)

map_ended-HasEnded :
    (f : Ended × World → Ended × World) (o : Option (Ended × World))
    → HasEnded o
    → HasEnded (map_ended f o)
map_ended-HasEnded f o (a, e) = rw e (f a, refl)

-- Whatever the peer sends and however the connection fails, the state ends: 2052 turns of its loop,
-- the limit on the pending entities, are enough.
pub perform_total :
    (env : Env) (s : Session) (turns : ℕ → Turn) (w : World) (initial : Packet) (now : Time)
    (ack : Outcome) (acked : Time)
    → (e : Ended) × (w' : World) × (perform env s turns 2052 w initial now ack acked ≡ some (e, w'))
unfolding perform
perform_total env s turns w initial now ack acked =
    let (a, q) =
      map_ended-HasEnded (acknowledge env s ack acked) _
        (started (process_announce env s initial now)) in
    (a.0, a.1, q)
  where
    started : (r : Result EntityId) → HasEnded (received env s turns 2052 w r)
    started (ok id) = elim (Bool-cases (has_entity w.storage.db id)) [
      | inl there ↦ rw there ((next, w), refl)
      | inr new ↦ rw new (loop-HasEnded env s turns 2052 w id [] (ground arith) (ground arith))
    ]
    started (err e) = ((Ended.failed e, w), refl)
    started fatal = ((Ended.died, w), refl)
