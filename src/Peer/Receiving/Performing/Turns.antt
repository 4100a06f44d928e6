-- ===== src/Peer/Receiving/Performing/Turns.antt =====
-- p2p/peer/state_receiving.go: what one turn of the loop does to the entities that are pending.
use dscuss.Prelude.{
  ◌≡◌, ◌<◌, ◌⊎◌, inl, inr, refl, ap, sym, ◌∙◌, Bytes, Bool, true, false, List, [], ◌∷◌, ◌++◌,
  length, ltb, ◌==◌, ==_iff, arith, Option, none, some, Bool-cases, Result, Outcome, ok, err, fatal,
}
use dscuss.Entity.{EntityId, Time, Entity, entity_id}
use dscuss.Packet.{Payload, Packet}
use dscuss.Packet.Checks.{verify_sig, verify_header_full, decode_payload}
use dscuss.Env.{Env}
use dscuss.Storage.{Storage}
use dscuss.Peer.Receiving.{
  max_pending_entities_num, Verdict, matched, banned, skip, need_id, ban_sender, ban_id, Session,
  World, Turn, Ended,
}
use dscuss.Peer.Receiving.Verdicts.{check_pending_entities}
use dscuss.Peer.Receiving.Performing.{
  Step, ask, stop, end_with, put_all, author_of, ban_sender_step, exceeded, judge, take_entity,
  turn_after, turn, read_entity, requested, carried, if_ok, is_entity_type,
}

-- The entities that are pending when a further one is asked for.
abbrev asks : Step → Option (List Entity)
asks (ask id pending w) = some pending
asks (stop e w) = none

end_with-asks : (e : Ended) (r : Outcome × World) → asks (end_with e r) ≡ none
end_with-asks e (ok u, w) = refl
end_with-asks e (err x, w) = refl
end_with-asks e (fatal, w) = refl

put_all-asks : (w : World) (r : Outcome × Storage) → asks (put_all w r) ≡ none
put_all-asks w (ok u, st) = refl
put_all-asks w (err x, st) = refl
put_all-asks w (fatal, st) = refl

ban_sender_step-asks :
    (env : Env) (s : Session) (t : Turn) (comment : Bytes) (r : Outcome × World)
    → asks (ban_sender_step env s t comment r) ≡ none
unfolding ban_sender_step
ban_sender_step-asks env s t comment (ok u, w) = end_with-asks _ _
ban_sender_step-asks env s t comment (err x, w) = refl
ban_sender_step-asks env s t comment (fatal, w) = refl

exceeded-asks :
    (env : Env) (s : Session) (t : Turn) (w : World) (pending : List Entity) (a : Option EntityId)
    → asks (exceeded env s t w pending a) ≡ none
unfolding exceeded
exceeded-asks env s t w pending none = refl
exceeded-asks env s t w [] (some id) = refl
exceeded-asks env s t w (e ∷ es) (some id) = ban_sender_step-asks env s t _ _

judge-asks :
    (env : Env) (s : Session) (t : Turn) (w : World) (pending : List Entity) (r : Result Verdict)
    → (asks (judge env s t w pending r) ≡ none)
      ⊎ ((asks (judge env s t w pending r) ≡ some pending)
          × (length pending < max_pending_entities_num))
unfolding judge
judge-asks env s t w pending (ok matched) = inl (put_all-asks w _)
judge-asks env s t w pending (ok (need_id id)) =
    elim (Bool-cases (ltb (length pending) max_pending_entities_num)) [
      | inl room ↦ rw room (inr (refl, ground arith))
      | inr full ↦ rw full (inl (exceeded-asks env s t w pending (author_of pending)))
    ]
judge-asks env s t w pending (ok (ban_sender comment)) =
    inl (ban_sender_step-asks env s t comment (ok tt, w))
judge-asks env s t w pending (ok (ban_id id comment)) = inl (end_with-asks _ _)
judge-asks env s t w pending (ok banned) = inl refl
judge-asks env s t w pending (ok skip) = inl refl
judge-asks env s t w pending (err e) = inl refl
judge-asks env s t w pending fatal = inl refl

-- An entity, if there is one, has the ID.
abbrev answers : EntityId → Result Entity → Bool
answers id (ok e) = entity_id e == id
answers id (err x) = true
answers id fatal = true

requested-answers : (id : EntityId) (e : Entity) → answers id (requested id e) ≡ true
unfolding requested
requested-answers id e = elim (Bool-cases (entity_id e == id)) [
  | inl same ↦ rw same same
  | inr other ↦ rw other refl
]

carried-answers : (id : EntityId) (p : Result Payload) → answers id (carried id p) ≡ true
unfolding carried
carried-answers id (ok (Payload.user u)) = requested-answers id (Entity.user u)
carried-answers id (ok (Payload.message m)) = requested-answers id (Entity.message m)
carried-answers id (ok (Payload.operation o)) = requested-answers id (Entity.operation o)
carried-answers id (ok pld) = refl
carried-answers id (err e) = refl
carried-answers id fatal = refl

if_ok-answers :
    (id : EntityId) (b : Result Bool) (r : Result Entity)
    → answers id r ≡ true
    → answers id (if_ok b r) ≡ true
if_ok-answers id (ok true) r h = h
if_ok-answers id (ok false) r h = refl
if_ok-answers id (err x) r h = refl
if_ok-answers id fatal r h = refl

read_entity-answers :
    (env : Env) (s : Session) (id : EntityId) (r : Result Packet) (now : Time)
    → answers id (read_entity env s id r now) ≡ true
unfolding read_entity
read_entity-answers env s id (ok pkt) now = if_ok-answers id (verify_sig env pkt s.user.pub_key) _ (
    if_ok-answers id (ok (verify_header_full is_entity_type pkt s.owner_id now)) _
      (carried-answers id (decode_payload env pkt)))
read_entity-answers env s id (err x) now = refl
read_entity-answers env s id fatal now = refl

-- Where a turn asks for a further entity, what is pending is what was, and the entity that was
-- requested in the turn; and it is within the limit.
abbrev pub IsGrown : List Entity → EntityId → List Entity → Type 0
IsGrown before id pending =
    (e : Entity) × (pending ≡ before ++ e ∷ [])
    × (entity_id e ≡ id)
    × (length pending < max_pending_entities_num)

abbrev Grows : List Entity → EntityId → Option (List Entity) → Type 0
Grows before id o =
    (o ≡ none) ⊎ ((pending : List Entity) × (o ≡ some pending) × IsGrown before id pending)

take_entity-Grows :
    (env : Env) (s : Session) (t : Turn) (w : World) (id : EntityId) (before : List Entity)
    (r : Result Entity)
    → answers id r ≡ true
    → Grows before id (asks (take_entity env s t w before r))
unfolding take_entity
take_entity-Grows env s t w id before (ok e) a =
    let (v, p) = check_pending_entities env w.storage.db w.profile (before ++ e ∷ []) in
    elim (judge-asks env s t (record w { profile = p }) (before ++ e ∷ []) v) [
      | inl over ↦ inl over
      | inr (more, room) ↦
          inr (before ++ e ∷ [], more, (e, refl, (==_iff (entity_id e) id).0 a, room))
    ]
take_entity-Grows env s t w id before (err x) a = inl refl
take_entity-Grows env s t w id before fatal a = inl refl

turn-Grows :
    (env : Env) (s : Session) (t : Turn) (w : World) (id : EntityId) (before : List Entity)
    → Grows before id (asks (turn env s t w id before))
unfolding turn turn_after
turn-Grows env s t w id before = by_write t.write
  where
    by_write : (o : Outcome) → Grows before id (asks (turn_after env s t w id before o))
    by_write (ok u) =
        take_entity-Grows env s t _ id before _ (read_entity-answers env s id t.packet t.verified)
    by_write (err x) = inl refl
    by_write fatal = inl refl

abbrev listed : Option (List Entity) → List Entity
listed none = []
listed (some l) = l

-- When a turn asks for a further entity, what is pending then is what was pending before and, after
-- it, the entity that this turn requested; and there is room below the limit.
pub turn_asks :
    (env : Env) (s : Session) (t : Turn) (w w' : World) (id id' : EntityId)
    (before pending : List Entity)
    → turn env s t w id before ≡ ask id' pending w'
    → IsGrown before id pending
turn_asks env s t w w' id id' before pending h = elim (turn-Grows env s t w id before) [
  | inl over ↦ let k = ap asks (sym h) ∙ over in absurd (ground arith)
  | inr (found, more, grown) ↦ let k = ap listed (ap asks (sym h) ∙ more) in rw k grown
]
