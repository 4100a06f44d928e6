-- ===== src/Peer/Syncing.antt =====
-- p2p/peer/state_active_syncing.go, state_passive_syncing.go and state_idle.go; the states of
-- state.go.
pub mod Draining
use dscuss.Prelude.{
  ℕ, ◌-◌, ◌*◌, ◌==◌, Bool, true, false, List, [], ◌∷◌, if◌then◌else◌, Option, none, some, Result,
  Outcome, ok, err, fatal, protocol_violation, Error,
}
use dscuss.Entity.{EntityId, Time, Duration, minute, StoredMessage, StoredOperation, Entity}
use dscuss.Entity
use dscuss.Subs.Subscriptions
use dscuss.Packet.{PacketType, Payload, Packet}
use dscuss.Packet
use dscuss.Packet.Checks.{verify_sig, verify_header}
use dscuss.Env.{Env}
use dscuss.Sqlite.MessageQueries.{get_messages_stored_after}
use dscuss.Sqlite.OperationTable.{get_operations_stored_after}
use dscuss.Storage.{Storage}
use dscuss.Peer.Receiving.{Session, World}
use dscuss.Peer.Receiving.Performing.{if_ok, write}
use dscuss.Peer.Interest.{Known}

abbrev pub max_sync_duration : Duration
max_sync_duration = 30 * 24 * 60 * minute

abbrev pub max_sync_number_of_messages : ℕ
max_sync_number_of_messages = 1000

abbrev pub max_sync_number_of_operations : ℕ
max_sync_number_of_operations = 1000

abbrev pub idle_timeout : Duration
idle_timeout = Entity.second

-- The fields of `StateActiveSyncing`: none is nil, or the zero time.
pub record ActiveSync : Type 0 where
  pub messages : Option (List StoredMessage)
  pub operations : Option (List StoredOperation)
  pub start_time : Option Time

-- `State`, each with the fields of its struct; a receiving or a sending state holds the next one.
pub data State : Type 0 where
  handshaking idle passive_syncing : State
  active_syncing : ActiveSync → State
  receiving : Packet → State → State
  sending : Entity → Time → State → State

-- What `perform` returns, and the world after it.
pub data Performed : Type 0 where
  switch : State → World → Performed
  broken : Error → World → Performed
  exits : World → Performed

abbrev pub new_state_active_syncing : State
new_state_active_syncing =
    active_syncing (record { messages = none; operations = none; start_time = none })

unfoldable pub get_start_time : Known → Time → Time
unfolding Subscriptions.diff
get_start_time k now = elim k.hist [
  | none ↦ now - max_sync_duration
  | some h ↦ elim (Subscriptions.diff k.subs h.subs) [
    | [] ↦ h.disconnected
    | t ∷ ts ↦ h.disconnected - max_sync_duration
  ]
]

abbrev pub started : Known → Time → ActiveSync → Time
unfolding get_start_time
started k now a = elim a.start_time [ none ↦ get_start_time k now | some t ↦ t ]

-- The list that the state keeps; a query without rows returns nil, which is asked for again.
abbrev pub fetched {ℓ} : {A : Type ℓ} → List A → Option (List A)
fetched [] = none
fetched (x ∷ xs) = some (x ∷ xs)

abbrev pub left {ℓ} : {A : Type ℓ} → Option (List A) → Result (List A) → Result (List A)
left (some xs) r = ok xs
left none r = r

-- What one call of the active `perform` gets from outside: the time for `getStartTime`, and the time
-- and the outcome of the write of the last packet.
pub record SyncTurn : Type 0 where
  pub now : Time
  pub sent : Time
  pub write : Outcome

-- After a write that succeeds, the next state.
abbrev pub write_then : Outcome → State → World → World → Performed
write_then (ok u) next before after = switch next after
write_then (err e) next before after = broken e before
write_then fatal next before after = exits before

-- The part of the active `perform` after the messages are synchronized.
unfoldable pub sync_operation :
    Env → Session → Bool → SyncTurn → ActiveSync → World → Result (List StoredOperation) → Performed
unfolding write
sync_operation env s is_active t a w (ok (o ∷ os)) =
    switch
      (sending (Entity.operation o.o) o.stored (active_syncing (record a { operations = some os })))
      w
sync_operation env s is_active t a w (ok []) =
    write_then t.write (if is_active then passive_syncing else idle) w
      (write env s w Payload.done t.sent)
sync_operation env s is_active t a w (err e) = broken e w
sync_operation env s is_active t a w fatal = exits w

abbrev pub operations_left : Env → World → Time → ActiveSync → Result (List StoredOperation)
unfolding get_operations_stored_after
operations_left env w start a =
    left a.operations
      (get_operations_stored_after env w.storage.db start max_sync_number_of_operations)

abbrev pub messages_left : Env → World → Time → ActiveSync → Result (List StoredMessage)
unfolding get_messages_stored_after
messages_left env w start a =
    left a.messages (get_messages_stored_after env w.storage.db start max_sync_number_of_messages)

unfoldable pub sync_message :
    Env
    → Session
    → Bool
    → SyncTurn
    → Time
    → ActiveSync
    → World
    → Result (List StoredMessage)
    → Performed
unfolding sync_operation operations_left
sync_message env s is_active t start a w (ok (m ∷ ms)) =
    switch
      (sending (Entity.message m.m) m.stored (active_syncing (record a { messages = some ms }))) w
sync_message env s is_active t start a w (ok []) =
    sync_operation env s is_active t a w (operations_left env w start a)
sync_message env s is_active t start a w (err e) = broken e w
sync_message env s is_active t start a w fatal = exits w

-- `perform` of the active part.
unfoldable pub sync_active :
    Env → Session → Known → Bool → ActiveSync → SyncTurn → World → Performed
unfolding sync_message started messages_left
sync_active env s k is_active a t w =
    let start = started k t.now a in
    sync_message env s is_active t start (record a { start_time = some start }) w
      (messages_left env w start a)

-- A packet that passes the check of the signature.
abbrev pub if_signed : Result Bool → World → Performed → Performed
if_signed (ok true) w p = p
if_signed (ok false) w p = broken protocol_violation w
if_signed (err e) w p = broken protocol_violation w
if_signed fatal w p = exits w

-- `perform` of the passive part, on what `conn.Read` returned.
unfoldable pub sync_passive : Env → Session → Bool → Result Packet → Time → World → Performed
unfolding verify_sig verify_header
sync_passive env s is_active (ok pkt) now w = if_signed (verify_sig env pkt s.user.pub_key) w (
    if verify_header PacketType.done pkt s.owner_id now
    then switch (if is_active then idle else new_state_active_syncing) w
    else switch (receiving pkt passive_syncing) w)
sync_passive env s is_active (err e) now w = broken e w
sync_passive env s is_active fatal now w = exits w

-- What a turn of the idle loop gets from outside: a packet, none for a timeout, or another error of
-- `conn.ReadFull`; and the time at which an entity is taken from the channel.
pub record IdleTurn : Type 0 where
  pub read : Result (Option Packet)
  pub now : Time

-- The entities after the first one that waits for this peer.
abbrev pub dequeued : World → ℕ → List Entity → World
dequeued w c es = record w {
  storage = record w.storage { queue = λ d. if d == c then es else w.storage.queue d };
}

abbrev pub from_chan : World → ℕ → Time → List Entity → Option Performed
from_chan w c now [] = none
from_chan w c now (e ∷ es) = some (switch (sending e now idle) (dequeued w c es))

-- One turn; none is a turn that ends with nothing to do. The channel is never closed.
unfoldable pub idle_turn : World → ℕ → IdleTurn → Option Performed
idle_turn w c t = elim t.read [
  | ok (some pkt) ↦ some (switch (receiving pkt idle) w)
  | ok none ↦ from_chan w c t.now (w.storage.queue c)
  | err e ↦ some (broken e w)
  | fatal ↦ some (exits w)
]

-- The loop of `perform` of the idle state, with the world as each turn finds it; none is a loop that
-- still runs.
unfoldable pub idle_loop : ℕ → List (World × IdleTurn) → Option Performed
unfolding idle_turn
idle_loop c [] = none
idle_loop c ((w, t) ∷ ts) = elim (idle_turn w c t) [ none ↦ idle_loop c ts | some p ↦ some p ]
