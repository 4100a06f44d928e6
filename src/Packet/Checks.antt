-- ===== src/Packet/Checks.antt =====
-- packet/packet.go: composing a packet and the checks on a received one.
pub mod Delivery
use dscuss.Prelude.{
  ℕ, ◌-◌, ◌*◌, Bytes, Bool, true, false, not, ltb, ◌==◌, if◌then◌else◌, bytes_eq, Option, none,
  some, Result, ok, err, protocol_violation, wrong_packet_type, malformed_payload,
}
use dscuss.Entity.{EntityId, Time, Duration, minute, PublicKey, PrivateKey}
use dscuss.Packet.{
  PacketType, unknown, user, msg, oper, hello, ann, ack, req, done, Payload, Body, Packet,
}
use dscuss.Packet
use dscuss.Env.{Env}
use dscuss.Crypto.{sign, verify}

abbrev pub max_time_discrepancy : Duration
max_time_discrepancy = 3 * minute

-- `==` on packet types.
unfoldable pub type_eq : PacketType → PacketType → Bool
type_eq user user = true
type_eq msg msg = true
type_eq oper oper = true
type_eq hello hello = true
type_eq ann ann = true
type_eq ack ack = true
type_eq req req = true
type_eq done done = true
type_eq (unknown a) (unknown b) = bytes_eq a b
type_eq _ _ = false

-- `New`, at the time `now`.
unfoldable pub new : Env → PacketType → EntityId → Payload → PrivateKey → Time → Packet
unfolding sign
new env t rcv pld signer now =
    let b =
      let body : Body = record {
        typ = t;
        receiver_id = rcv;
        date_composed = now;
        payload = env.json_payload pld;
      } in
      body in
    record { body = b; sig = sign env signer (env.json_body b) }

abbrev or_malformed : Option Payload → Result Payload
or_malformed none = err malformed_payload
or_malformed (some pld) = ok pld

unfoldable pub decode_payload : Env → Packet → Result Payload
decode_payload env p = elim p.typ [
  | unknown s ↦ err wrong_packet_type
  | t ↦ or_malformed (env.unmarshal t p.payload)
]

unfoldable pub verify_sig : Env → Packet → PublicKey → Result Bool
unfolding verify
verify_sig env p pub_key = verify env pub_key (env.json_body p.body) p.sig

-- `VerifyHeaderFull`, at the time `now`; true stands for a nil error.
unfoldable pub verify_header_full : (PacketType → Bool) → Packet → EntityId → Time → Bool
verify_header_full f p rcv now =
    if not (f p.typ)
    then false
    else if not (p.receiver_id == rcv)
    then false
    else if ltb max_time_discrepancy (now - p.date_composed)
    then false
    else true

unfoldable pub verify_header : PacketType → Packet → EntityId → Time → Bool
unfolding verify_header_full type_eq
verify_header t p rcv now = verify_header_full (λ ft. type_eq ft t) p rcv now
