-- ===== src/Peer/Receiving/Performing.antt =====
-- p2p/peer/state_receiving.go: the state itself, from the announcement to the acknowledgement.
pub mod Turns
pub mod Ending
use dscuss.Prelude.{
  ℕ, zero, suc, Bytes, codes, Bool, true, false, not, ◌||◌, List, [], ◌∷◌, ◌++◌, length, ltb, ◌==◌,
  if◌then◌else◌, Option, none, some, Result, Outcome, ok, err, fatal, protocol_violation,
  oper_post_rate_err, Error,
}
use dscuss.Entity.{EntityId, Time, User, Operation, Entity, entity_id}
use dscuss.Entity
use dscuss.Entity.Messages.{Readings}
use dscuss.Entity.Operations.{type_ban_user, reason_protocol_violation, emerge_operation}
use dscuss.Packet.{PacketType, Payload, Packet}
use dscuss.Packet
use dscuss.Packet.Checks
use dscuss.Packet.Checks.{type_eq, verify_sig, verify_header, verify_header_full, decode_payload}
use dscuss.Env.{Env, type_of}
use dscuss.Storage.{Storage, put_entity, has_entity}
use dscuss.Owner.Profile.{Profile}
use dscuss.Peer.Receiving.{
  max_pending_entities_num, Verdict, matched, banned, skip, need_id, ban_sender, ban_id, Session,
  World, Turn, Ended, next, died, failed, sender_banned,
}
use dscuss.Peer.Receiving.Verdicts.{check_pending_entities}

-- A packet that is refused is a violation of the protocol; a panic ends the process.
abbrev pub if_ok {ℓ} : {A : Type ℓ} → Result Bool → Result A → Result A
if_ok (ok true) r = r
if_ok (ok false) r = err protocol_violation
if_ok (err e) r = err protocol_violation
if_ok fatal r = fatal

abbrev pub announced : Result Payload → Result EntityId
announced (ok (Payload.announce id)) = ok id
announced (ok pld) = fatal
announced (err e) = err protocol_violation
announced fatal = fatal

unfoldable pub process_announce : Env → Session → Packet → Time → Result EntityId
unfolding verify_sig verify_header decode_payload
process_announce env s pkt now = if_ok (verify_sig env pkt s.user.pub_key) (
    if_ok (ok (verify_header PacketType.ann pkt s.owner_id now))
      (announced (decode_payload env pkt)))

abbrev pub is_entity_type : PacketType → Bool
unfolding type_eq
is_entity_type t =
    type_eq t PacketType.user || type_eq t PacketType.msg || type_eq t PacketType.oper

abbrev pub requested : EntityId → Entity → Result Entity
unfolding entity_id
requested id e = if entity_id e == id then ok e else err protocol_violation

abbrev pub carried : EntityId → Result Payload → Result Entity
unfolding entity_id
carried id (ok (Payload.user u)) = requested id (Entity.user u)
carried id (ok (Payload.message m)) = requested id (Entity.message m)
carried id (ok (Payload.operation o)) = requested id (Entity.operation o)
carried id (ok pld) = fatal
carried id (err e) = err protocol_violation
carried id fatal = fatal

-- `readEntity`, on what `conn.Read` returned.
unfoldable pub read_entity : Env → Session → EntityId → Result Packet → Time → Result Entity
unfolding verify_sig verify_header_full decode_payload carried is_entity_type
read_entity env s id (ok pkt) now = if_ok (verify_sig env pkt s.user.pub_key) (
    if_ok (ok (verify_header_full is_entity_type pkt s.owner_id now))
      (carried id (decode_payload env pkt)))
read_entity env s id (err e) now = err e
read_entity env s id fatal now = fatal

-- What `sendReq` and `sendAck` write.
unfoldable pub write : Env → Session → World → Payload → Time → World
unfolding Checks.new
write env s w pld now = record w {
  written = Checks.new env (type_of pld) s.user.id pld s.signer now ∷ w.written;
}

abbrev pub put_ban : World → Result Operation → Time → Outcome × World
put_ban w (ok o) now = logged (put_entity w.storage (Entity.operation o) none now)
  where
    -- An error of the storage is only logged.
    logged : Outcome × Storage → Outcome × World
    logged (fatal, st) = (fatal, record w { storage = st })
    logged (r, st) = (ok tt, record w { storage = st })
put_ban w (err oper_post_rate_err) now = (ok tt, w)
put_ban w (err e) now = (fatal, w)
put_ban w fatal now = (fatal, w)

unfoldable pub ban_user :
    Env → Session → World → EntityId → Bytes → Readings → Time → Outcome × World
unfolding emerge_operation
ban_user env s w id comment readings now =
    let (r, last) =
      emerge_operation env w.last_oper readings type_ban_user reason_protocol_violation comment
        s.owner_id id s.signer in
    put_ban (record w { last_oper = last }) r now

-- The loop that puts the pending entities, in their order; an error is fatal.
unfoldable pub put_pending : Session → Storage → List Entity → (ℕ → Time) → ℕ → Outcome × Storage
unfolding put_entity
put_pending s st [] now i = (ok tt, st)
put_pending s st (e ∷ es) now i =
    let (r, st') = put_entity st e (some s.out_entity_chan) (now i) in
    elim r [ ok u ↦ put_pending s st' es now (suc i) | err e ↦ (fatal, st') | fatal ↦ (fatal, st') ]

-- What a turn of the loop comes to: a further entity is asked for, or the loop is over.
pub data Step : Type 0 where
  ask : EntityId → List Entity → World → Step
  stop : Ended → World → Step

abbrev pub end_with : Ended → Outcome × World → Step
end_with e (ok u, w) = stop e w
end_with e (err x, w) = stop died w
end_with e (fatal, w) = stop died w

abbrev pub put_all : World → Outcome × Storage → Step
put_all w (ok u, st) = stop next (record w { storage = st })
put_all w (r, st) = stop died (record w { storage = st })

abbrev pub author_of : List Entity → Option EntityId
author_of (Entity.message m ∷ es) = some m.author_id
author_of (Entity.operation o ∷ es) = some o.author_id
author_of _ = none

abbrev pub ban_sender_step : Env → Session → Turn → Bytes → Outcome × World → Step
unfolding ban_user
ban_sender_step env s t comment (ok u, w) =
    end_with (sender_banned comment)
      (ban_user env s w s.user.id comment t.banning_sender t.sender_banned_at)
ban_sender_step env s t comment (r, w) = stop died w

-- Too many entities are pending: the author of the first one and the sender are banned.
abbrev pub exceeded : Env → Session → Turn → World → List Entity → Option EntityId → Step
unfolding ban_user ban_sender_step entity_id
exceeded env s t w pending none = stop died w
exceeded env s t w [] (some auth_id) = stop died w
exceeded env s t w (e ∷ es) (some auth_id) =
    ban_sender_step env s t
      (codes "peer sent entity "
        ++ env.base64 (entity_id e)
        ++ codes " exceeding max depth of thread")
      (ban_user env s w auth_id (codes "user exceeded max depth of thread") t.banning t.banned_at)

-- What a turn does with the verdict on the pending entities.
unfoldable pub judge : Env → Session → Turn → World → List Entity → Result Verdict → Step
unfolding ban_user put_pending ban_sender_step exceeded
judge env s t w pending (ok matched) = put_all w (put_pending s w.storage pending t.put 0)
judge env s t w pending (ok (need_id id)) =
    if ltb (length pending) max_pending_entities_num
    then ask id pending w
    else exceeded env s t w pending (author_of pending)
judge env s t w pending (ok (ban_sender comment)) = ban_sender_step env s t comment (ok tt, w)
judge env s t w pending (ok (ban_id id comment)) =
    end_with next (ban_user env s w id comment t.banning t.banned_at)
judge env s t w pending (ok banned) = stop next w
judge env s t w pending (ok skip) = stop next w
judge env s t w pending (err e) = stop died w
judge env s t w pending fatal = stop died w

-- A turn from the entity that is read on.
unfoldable pub take_entity : Env → Session → Turn → World → List Entity → Result Entity → Step
unfolding judge check_pending_entities
take_entity env s t w pending (ok e) =
    let (r, p) = check_pending_entities env w.storage.db w.profile (pending ++ e ∷ []) in
    judge env s t (record w { profile = p }) (pending ++ e ∷ []) r
take_entity env s t w pending (err e) = stop (failed e) w
take_entity env s t w pending fatal = stop died w

abbrev pub turn_after : Env → Session → Turn → World → EntityId → List Entity → Outcome → Step
unfolding take_entity read_entity write
turn_after env s t w needed pending (ok u) =
    take_entity env s t (write env s w (Payload.req needed) t.sent) pending
      (read_entity env s needed t.packet t.verified)
turn_after env s t w needed pending (err e) = stop (failed e) w
turn_after env s t w needed pending fatal = stop died w

-- One turn of the loop of `perform`.
unfoldable pub turn : Env → Session → Turn → World → EntityId → List Entity → Step
unfolding turn_after
turn env s t w needed pending = turn_after env s t w needed pending t.write

-- The loop, for at most `fuel` turns; none stands for a loop that still runs. The turn is chosen by
-- the number of entities that are pending, which is the number of turns before it.
unfoldable pub loop :
    Env → Session → (ℕ → Turn) → ℕ → World → EntityId → List Entity → Option (Ended × World)
unfolding turn
loop env s turns zero w needed pending = none
loop env s turns (suc fuel) w needed pending =
    elim (turn env s (turns (length pending)) w needed pending) [
      | ask id pending' w' ↦ loop env s turns fuel w' id pending'
      | stop e w' ↦ some (e, w')
    ]

abbrev pub acknowledge : Env → Session → Outcome → Time → Ended × World → Ended × World
unfolding write
acknowledge env s (ok u) now (next, w) = (next, write env s w Payload.ack now)
acknowledge env s (err e) now (next, w) = (failed e, w)
acknowledge env s fatal now (next, w) = (died, w)
acknowledge env s r now (e, w) = (e, w)

abbrev pub map_ended :
    (Ended × World → Ended × World) → Option (Ended × World) → Option (Ended × World)
map_ended f none = none
map_ended f (some x) = some (f x)

abbrev pub received :
    Env → Session → (ℕ → Turn) → ℕ → World → Result EntityId → Option (Ended × World)
unfolding loop has_entity
received env s turns fuel w (ok id) =
    if has_entity w.storage.db id then some (next, w) else loop env s turns fuel w id []
received env s turns fuel w (err e) = some (failed e, w)
received env s turns fuel w fatal = some (died, w)

-- `perform`, on the packet that started the state; then the outcome of the write of the
-- acknowledgement, and its time.
unfoldable pub perform :
    Env → Session → (ℕ → Turn) → ℕ → World → Packet → Time → Outcome → Time → Option (Ended × World)
unfolding process_announce received acknowledge
perform env s turns fuel w initial now ack acked =
    map_ended (acknowledge env s ack acked)
      (received env s turns fuel w (process_announce env s initial now))
