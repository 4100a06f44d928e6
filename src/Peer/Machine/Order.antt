-- ===== src/Peer/Machine/Order.antt =====
-- p2p/peer/peer.go: which states follow each other.
use dscuss.Prelude.{
  ℕ, suc, ◌≤◌, ◌≡◌, refl, subst, arith, Bool, true, false, List, [], ◌∷◌, if◌then◌else◌, Option,
  none, some, Result, Outcome, ok, err, fatal,
}
use dscuss.Entity.{Time, StoredMessage, StoredOperation, Entity}
use dscuss.Packet.{PacketType, Packet}
use dscuss.Packet.Checks.{verify_sig, verify_header}
use dscuss.Env.{Env}
use dscuss.Peer.Receiving.{Session, World}
use dscuss.Peer.Interest.{Known}
use dscuss.Peer.Syncing.{
  ActiveSync, State, handshaking, idle, passive_syncing, active_syncing, receiving, sending,
  new_state_active_syncing, Performed, switch, broken, exits, started, write_then, SyncTurn,
  sync_operation, operations_left, sync_message, messages_left, sync_active, if_signed,
  sync_passive, from_chan, IdleTurn, idle_turn, idle_loop,
}
use dscuss.Peer.Machine.{Peer, Step, session}

-- The part of the protocol that a state belongs to, where `b` says whether this node opened the
-- connection.
unfoldable pub phase : Bool → State → ℕ
phase b handshaking = 0
phase b (active_syncing a) = if b then 1 else 2
phase b passive_syncing = if b then 2 else 1
phase b idle = 3
phase b (receiving p s) = phase b s
phase b (sending e t s) = phase b s

abbrev may_receive : State → Bool
may_receive idle = true
may_receive passive_syncing = true
may_receive _ = false

abbrev may_send : State → Bool
may_send idle = true
may_send (active_syncing a) = true
may_send _ = false

-- The state that comes after receiving or sending is one that starts it.
unfoldable pub is_nested : State → Bool
is_nested (receiving p s) = may_receive s
is_nested (sending e t s) = may_send s
is_nested _ = true

-- The next state is in the same part or in the one after it.
pub record Follows (b : Bool) (old new : State) : Type 0 where
  pub forward : phase b old ≤ phase b new
  pub by_one : phase b new ≤ suc (phase b old)
  pub nested : is_nested new ≡ true

abbrev LeadsOn : Bool → State → Performed → Type 0
LeadsOn b old (switch s w) = Follows b old s
LeadsOn b old (broken e w) = Unit {0}
LeadsOn b old (exits w) = Unit {0}

write_then-LeadsOn :
    (b : Bool) (o : Outcome) (old s : State) (w w' : World)
    → Follows b old s
    → LeadsOn b old (write_then o s w w')
write_then-LeadsOn b (ok u) old s w w' f = f
write_then-LeadsOn b (err e) old s w w' f = tt
write_then-LeadsOn b fatal old s w w' f = tt

after_active :
    (b : Bool) (a : ActiveSync) → Follows b (active_syncing a) (if b then passive_syncing else idle)
unfolding phase is_nested
after_active true a = record { forward = omega arith; by_one = omega arith; nested = refl }
after_active false a = record { forward = omega arith; by_one = omega arith; nested = refl }

after_passive :
    (b : Bool) → Follows b passive_syncing (if b then idle else new_state_active_syncing)
unfolding phase is_nested
after_passive true = record { forward = omega arith; by_one = omega arith; nested = refl }
after_passive false = record { forward = omega arith; by_one = omega arith; nested = refl }

after_handshake :
    (b : Bool) → Follows b handshaking (if b then new_state_active_syncing else passive_syncing)
unfolding phase is_nested
after_handshake true = record { forward = omega arith; by_one = omega arith; nested = refl }
after_handshake false = record { forward = omega arith; by_one = omega arith; nested = refl }

same_phase :
    (b : Bool) (old s : State) → phase b old ≡ phase b s → is_nested s ≡ true → Follows b old s
same_phase b old s e n = record { forward = omega arith; by_one = omega arith; nested = n }

module _ (env : Env) (s : Session) (b : Bool) where
  sync_operation-LeadsOn :
      (t : SyncTurn) (a0 a : ActiveSync) (w : World) (r : Result (List StoredOperation))
      → LeadsOn b (active_syncing a0) (sync_operation env s b t a w r)
  unfolding sync_operation phase is_nested
  sync_operation-LeadsOn t a0 a w (ok []) = write_then-LeadsOn b t.write _ _ w _ (after_active b a0)
  sync_operation-LeadsOn t a0 a w (ok (o ∷ os)) = same_phase b _ _ refl refl
  sync_operation-LeadsOn t a0 a w (err e) = tt
  sync_operation-LeadsOn t a0 a w fatal = tt

  sync_message-LeadsOn :
      (t : SyncTurn) (start : Time) (a0 a : ActiveSync) (w : World)
      (r : Result (List StoredMessage))
      → LeadsOn b (active_syncing a0) (sync_message env s b t start a w r)
  unfolding sync_message phase is_nested
  sync_message-LeadsOn t start a0 a w (ok []) =
      sync_operation-LeadsOn t a0 a w (operations_left env w start a)
  sync_message-LeadsOn t start a0 a w (ok (m ∷ ms)) = same_phase b _ _ refl refl
  sync_message-LeadsOn t start a0 a w (err e) = tt
  sync_message-LeadsOn t start a0 a w fatal = tt

  sync_active-LeadsOn :
      (k : Known) (a : ActiveSync) (t : SyncTurn) (w : World)
      → LeadsOn b (active_syncing a) (sync_active env s k b a t w)
  unfolding sync_active
  sync_active-LeadsOn k a t w =
      let b' : ActiveSync = record a { start_time = some (started k t.now a) } in
      sync_message-LeadsOn t (started k t.now a) a b' w (messages_left env w (started k t.now a) a)

  if_signed-LeadsOn :
      (r : Result Bool) (w : World) (p : Performed)
      → LeadsOn b passive_syncing p
      → LeadsOn b passive_syncing (if_signed r w p)
  if_signed-LeadsOn (ok true) w p l = l
  if_signed-LeadsOn (ok false) w p l = tt
  if_signed-LeadsOn (err e) w p l = tt
  if_signed-LeadsOn fatal w p l = tt

  if-LeadsOn :
      (c : Bool) (p q : Performed)
      → LeadsOn b passive_syncing p
      → LeadsOn b passive_syncing q
      → LeadsOn b passive_syncing (if c then p else q)
  if-LeadsOn true p q l m = l
  if-LeadsOn false p q l m = m

  sync_passive-LeadsOn :
      (r : Result Packet) (now : Time) (w : World)
      → LeadsOn b passive_syncing (sync_passive env s b r now w)
  unfolding sync_passive phase is_nested
  sync_passive-LeadsOn (ok pkt) now w = if_signed-LeadsOn (verify_sig env pkt s.user.pub_key) w _ (
      if-LeadsOn (verify_header PacketType.done pkt s.owner_id now)
        (switch (if b then idle else new_state_active_syncing) w)
        (switch (receiving pkt passive_syncing) w) (after_passive b) (same_phase b _ _ refl refl))
  sync_passive-LeadsOn (err e) now w = tt
  sync_passive-LeadsOn fatal now w = tt

abbrev LeadsOnIfAny : Bool → Option Performed → Type 0
LeadsOnIfAny b none = Unit {0}
LeadsOnIfAny b (some p) = LeadsOn b idle p

from_chan-LeadsOn :
    (b : Bool) (w : World) (c : ℕ) (now : Time) (es : List Entity)
    → LeadsOnIfAny b (from_chan w c now es)
unfolding phase is_nested
from_chan-LeadsOn b w c now [] = tt
from_chan-LeadsOn b w c now (e ∷ es) = same_phase b _ _ refl refl

idle_turn-LeadsOn :
    (b : Bool) (w : World) (c : ℕ) (r : Result (Option Packet)) (now : Time)
    → LeadsOnIfAny b (idle_turn w c (record { read = r; now = now }))
unfolding idle_turn phase is_nested
idle_turn-LeadsOn b w c (ok (some pkt)) now = same_phase b _ _ refl refl
idle_turn-LeadsOn b w c (ok none) now = from_chan-LeadsOn b w c now (w.storage.queue c)
idle_turn-LeadsOn b w c (err e) now = tt
idle_turn-LeadsOn b w c fatal now = tt

idle_loop-LeadsOn :
    (b : Bool) (c : ℕ) (turns : List (World × IdleTurn)) → LeadsOnIfAny b (idle_loop c turns)
unfolding idle_loop
idle_loop-LeadsOn b c [] = tt
idle_loop-LeadsOn b c ((w, t) ∷ ts) =
    choose (idle_turn w c t) (idle_turn-LeadsOn b w c t.read t.now) (idle_loop-LeadsOn b c ts)
  where
    choose :
        (o : Option Performed)
        → LeadsOnIfAny b o
        → LeadsOnIfAny b (idle_loop c ts)
        → LeadsOnIfAny b (elim o [ none ↦ idle_loop c ts | some p ↦ some p ])
    choose none l m = m
    choose (some p) l m = l

received_nested : (s : State) → may_receive s ≡ true → is_nested s ≡ true
unfolding is_nested
received_nested handshaking e = absurd (ground arith)
received_nested idle e = refl
received_nested passive_syncing e = refl
received_nested (active_syncing a) e = refl
received_nested (receiving p s) e = absurd (ground arith)
received_nested (sending x t s) e = absurd (ground arith)

sent_nested : (s : State) → may_send s ≡ true → is_nested s ≡ true
unfolding is_nested
sent_nested handshaking e = absurd (ground arith)
sent_nested idle e = refl
sent_nested passive_syncing e = refl
sent_nested (active_syncing a) e = refl
sent_nested (receiving p s) e = absurd (ground arith)
sent_nested (sending x t s) e = absurd (ground arith)

-- From a state whose next state, if it holds one, is one that starts it, every turn of `run` leads to
-- such a state again, which is in the same part of the protocol or in the one after it: a handshake,
-- then the active and the passive part of the synchronization, the active one first where this node
-- opened the connection, then the idle state.
pub Step-Follows :
    (env : Env) (p q : Peer)
    → Step env p q
    → is_nested p.state ≡ true
    → Follows p.own.is_active p.state q.state
unfolding is_nested phase
Step-Follows env p q (Step.handshaken own k0 w w' g i k e) n = after_handshake own.is_active
Step-Follows env p q (Step.synced own k w w' g a t s e) n =
    subst (LeadsOn own.is_active (active_syncing a)) e
      (sync_active-LeadsOn env (session own k) own.is_active k a t w)
Step-Follows env p q (Step.heard own k w w' g r now s e) n =
    subst (LeadsOn own.is_active passive_syncing) e
      (sync_passive-LeadsOn env (session own k) own.is_active r now w)
Step-Follows env p q (Step.woken own k w w' g turns s e) n =
    subst (LeadsOnIfAny own.is_active) e (idle_loop-LeadsOn own.is_active own.out_entity_chan turns)
Step-Follows env p q (Step.received own k w w' g pkt s turns fuel now ack acked e) n =
    same_phase own.is_active _ _ refl (received_nested s n)
Step-Follows env p q (Step.sent own k w w' g x stored s fuel now o turns e) n =
    same_phase own.is_active _ _ refl (sent_nested s n)
Step-Follows env p q (Step.changed own k w w' g s) n = same_phase own.is_active s s refl n
