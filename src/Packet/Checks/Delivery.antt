-- ===== src/Packet/Checks/Delivery.antt =====
-- What the receiver's checks let through.
use dscuss.Prelude.{◌+◌, ◌≤◌, ◌≡◌, refl, ◌↔◌, true, some, ok, arith, bytes_eq_iff, ap}
use dscuss.Entity.{EntityId, Time, PrivateKey}
use dscuss.Packet.{PacketType, unknown, Payload, Packet}
use dscuss.Env.{Env, IsLawful, type_of}
use dscuss.Crypto.Signing.{verify-sign}
use dscuss.Packet.Checks.{
  max_time_discrepancy, type_eq, new, decode_payload, verify_sig, verify_header,
}

pub type_eq_refl : (t : PacketType) → type_eq t t ≡ true
unfolding type_eq
type_eq_refl (unknown a) = (bytes_eq_iff a a).1 refl
type_eq_refl _ = refl

pub type_eq_iff : (t u : PacketType) → (type_eq t u ≡ true) ↔ (t ≡ u)
unfolding type_eq
type_eq_iff t u = (eq t u, λ e. rw e (type_eq_refl u))
  where
    eq : (t u : PacketType) → type_eq t u ≡ true → t ≡ u
    eq (unknown a) (unknown b) h = ap unknown ((bytes_eq_iff a b).0 h)
    eq t u h = ground arith

-- `VerifyHeader` accepts exactly the packets of the wanted type that are addressed to this user
-- and were composed no more than three minutes ago; a date in the future passes.
pub verify_header_iff :
    (t : PacketType) (p : Packet) (rcv : EntityId) (now : Time)
    → (verify_header t p rcv now ≡ true)
      ↔ ((p.typ ≡ t) × (p.receiver_id ≡ rcv) × (now ≤ p.date_composed + max_time_discrepancy))
unfolding verify_header
verify_header_iff t p rcv now = (
  λ h. ((type_eq_iff p.typ t).0 (ground arith), ground arith, ground arith),
  λ w. ground (arith, w.0, w.1, w.2, (type_eq_iff p.typ t).1 w.0),
)

-- A packet made by `New` reaches its receiver, if the library decodes what it encoded, ECDSA verifies
-- what it signs and r and s fit a coordinate: within three minutes its signature and its header are accepted there, and its payload is decoded to what was
-- sent.
pub new-accepted :
    (env : Env) (lawful : IsLawful env) (rcv : EntityId) (pld : Payload) (signer : PrivateKey)
    (sent now : Time)
    → env.unmarshal (type_of pld) (env.json_payload pld) ≡ some pld
    → now ≤ sent + max_time_discrepancy
    → (verify_sig env (new env (type_of pld) rcv pld signer sent) (env.public signer) ≡ ok true)
      × (verify_header (type_of pld) (new env (type_of pld) rcv pld signer sent) rcv now ≡ true)
      × (decode_payload env (new env (type_of pld) rcv pld signer sent) ≡ ok pld)
unfolding new verify_sig decode_payload
new-accepted env lawful rcv pld signer sent now decodes h = (
  verify-sign env lawful signer _,
  (verify_header_iff (type_of pld) _ rcv now).1 (refl, refl, h),
  decoded pld decodes,
)
  where
    decoded :
        (pld : Payload)
        → env.unmarshal (type_of pld) (env.json_payload pld) ≡ some pld
        → decode_payload env (new env (type_of pld) rcv pld signer sent) ≡ ok pld
    decoded (Payload.user u) d = rw d refl
    decoded pld d = rw d refl
