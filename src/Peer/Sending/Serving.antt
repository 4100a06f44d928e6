-- ===== src/Peer/Sending/Serving.antt =====
-- p2p/peer/state_sending.go: the course of the loop.
use dscuss.Prelude.{
  ◌≢◌, ◌≡◌, refl, sym, ap, ◌∙◌, arith, ◌==◌, ==_iff, Bool-cases, inl, inr, true, List, ◌∷◌, Option,
  some, ok,
}
use dscuss.Entity.{EntityId, Entity, User, Message, Operation, entity_id}
use dscuss.Storage.{get_entity}
use dscuss.Packet.{PacketType, Payload, Packet}
use dscuss.Packet.Checks.{verify_sig, verify_header_full, decode_payload}
use dscuss.Env.{Env}
use dscuss.Peer.Receiving.{Session, World, Ended, next}
use dscuss.Peer.Receiving.Performing.{write}
use dscuss.Peer.Sending.{
  SendTurn, is_reply_type, payload_of, Served, again, over, after_write, send_found,
  requested_entity, request_of, process_req, answer, if_verified, serve_packet, serve, serve_all,
}

-- The packet of the turn passes the checks of the signature and of the header.
pub record IsVerified (env : Env) (s : Session) (t : SendTurn) (pkt : Packet) : Type 0 where
  pub read : t.packet ≡ ok pkt
  pub signed : verify_sig env pkt s.user.pub_key ≡ ok true
  pub headed : verify_header_full is_reply_type pkt s.owner_id t.verified ≡ true

-- What an ID stands for while an entity is sent: the entity itself, and for any other ID what is
-- stored under it.
pub record IsAsked (env : Env) (w : World) (out : Entity) (id : EntityId) (e : Entity)
    : Type 0 where
  pub announced : id ≡ entity_id out → e ≡ out
  pub stored : id ≢ entity_id out → get_entity env w.storage.db id ≡ ok e

-- A payload that carries an entity.
pub data Carries : Payload → Entity → Type 0 where
  user : (u : User) → Carries (Payload.user u) (Entity.user u)
  message : (m : Message) → Carries (Payload.message m) (Entity.message m)
  operation : (o : Operation) → Carries (Payload.operation o) (Entity.operation o)

-- The peer asks for entities that the node has, one after the other, and then acknowledges; the
-- writes succeed. Each entity that is asked for is sent, in a packet of its own.
pub data Exchange (env : Env) (s : Session) (out : Entity)
    : World → List SendTurn → World → Type 0 where
  acked :
      (w : World) (t : SendTurn) (ts : List SendTurn) (pkt : Packet)
      → IsVerified env s t pkt
      → pkt.typ ≡ PacketType.ack
      → Exchange env s out w (t ∷ ts) w
  asked :
      (w w' : World) (t : SendTurn) (ts : List SendTurn) (pkt : Packet) (id : EntityId) (e : Entity)
      (pld : Payload)
      → IsVerified env s t pkt
      → pkt.typ ≡ PacketType.req
      → decode_payload env pkt ≡ ok (Payload.req id)
      → IsAsked env w out id e
      → Carries pld e
      → t.write ≡ ok tt
      → Exchange env s out (write env s w pld t.sent) ts w'
      → Exchange env s out w (t ∷ ts) w'

payload_of-Carries : (pld : Payload) (e : Entity) → Carries pld e → payload_of e ≡ pld
payload_of-Carries _ _ (Carries.user u) = refl
payload_of-Carries _ _ (Carries.message m) = refl
payload_of-Carries _ _ (Carries.operation o) = refl

requested_entity-IsAsked :
    (env : Env) (w : World) (out : Entity) (id : EntityId) (e : Entity)
    → IsAsked env w out id e
    → requested_entity env w out id ≡ ok e
unfolding requested_entity
requested_entity-IsAsked env w out id e a = elim (Bool-cases (id == entity_id out)) [
  | inl h ↦ rw h (ap ok (sym (a.announced ((==_iff id (entity_id out)).0 h))))
  | inr h ↦ rw h (a.stored (λ q. absurd (ground (arith, (==_iff id (entity_id out)).1 q, h))))
]

serve_verified :
    (env : Env) (s : Session) (out : Entity) (w : World) (t : SendTurn) (pkt : Packet)
    → IsVerified env s t pkt
    → serve env s w out t ≡ answer env s w out t pkt pkt.typ
unfolding serve serve_packet
serve_verified env s out w t pkt v =
    ap (serve_packet env s w out t) v.read
    ∙ ap
        (λ b.
          if_verified b (verify_header_full is_reply_type pkt s.owner_id t.verified) w
            (answer env s w out t pkt pkt.typ))
        v.signed
    ∙ ap (λ h. if_verified (ok true) h w (answer env s w out t pkt pkt.typ)) v.headed

serve_req :
    (env : Env) (s : Session) (out : Entity) (w : World) (t : SendTurn) (pkt : Packet)
    (id : EntityId) (e : Entity)
    → IsVerified env s t pkt
    → pkt.typ ≡ PacketType.req
    → decode_payload env pkt ≡ ok (Payload.req id)
    → requested_entity env w out id ≡ ok e
    → t.write ≡ ok tt
    → serve env s w out t ≡ again (write env s w (payload_of e) t.sent)
unfolding answer process_req request_of send_found
serve_req env s out w t pkt id e v a d r o =
    serve_verified env s out w t pkt v
    ∙ ap (answer env s w out t pkt) a
    ∙ ap (request_of env s w out t) d
    ∙ ap (send_found env s w t) r
    ∙ ap (λ x. after_write x w (write env s w (payload_of e) t.sent)) o

abbrev then_serve : Env → Session → Entity → List SendTurn → Served → Option Ended × World
unfolding serve_all
then_serve env s out ts (again w) = serve_all env s w out ts
then_serve env s out ts (over e w) = (some e, w)

-- If the peer asks for entities that the node has and at last acknowledges, and the writes succeed,
-- the loop ends in the next state, after exactly the entities that were asked for were sent: for the
-- ID of the entity that was announced that entity, and for any other ID the entity stored under it.
pub serve_all-Exchange :
    (env : Env) (s : Session) (out : Entity) (w w' : World) (turns : List SendTurn)
    → Exchange env s out w turns w'
    → serve_all env s w out turns ≡ (some next, w')
unfolding serve_all answer then_serve
serve_all-Exchange env s out w w' turns (acked v t ts pkt h a) =
    ap (then_serve env s out ts)
      (serve_verified env s out v t pkt h ∙ ap (answer env s v out t pkt) a)
serve_all-Exchange env s out w w' turns (asked v v' t ts pkt id e pld h a d r c o x) =
    ap (then_serve env s out ts) (
      serve_req env s out v t pkt id e h a d (requested_entity-IsAsked env v out id e r) o
      ∙ ap (λ q. again (write env s v q t.sent)) (payload_of-Carries pld e c))
    ∙ serve_all-Exchange env s out (write env s v pld t.sent) v' ts x
