-- ===== src/Entity/Operations/Performing.antt =====
-- entity/operation.go: `isValid`, `EmergeOperation` and the names of the reasons.
use dscuss.Prelude.{zero, suc, bytes_eq, ℕ, ◌≤◌, ◌≡◌, ◌≢◌, refl, ◌↔◌, Bytes, true, ok, arith}
use dscuss.Entity.{EntityId, Time, zero_id, PrivateKey, UnsignedOperation, Operation}
use dscuss.Env.{Env, IsLawful}
use dscuss.Crypto.Signing.{verify-sign}
use dscuss.Entity.Messages.{Readings}
use dscuss.Entity.Operations.{
  operation_to_id, new_unsigned_operation, is_unsigned_operation_valid, is_operation_valid,
  emerge_operation, reason_string, parse_reason,
}

-- What `isValid` asks for: the hash of the content as the ID, a known type and reason, and an
-- author and an object.
pub record IsWellFormed (env : Env) (uo : UnsignedOperation) : Type 0 where
  pub hashed : uo.id ≡ operation_to_id env uo.content
  pub type_known : uo.operation_type ≤ 1
  pub reason_known : uo.reason ≤ 4
  pub author_given : uo.author_id ≢ zero_id
  pub object_given : uo.object_id ≢ zero_id

-- `isValid` decides `IsWellFormed`; the length of the comment has no part in it.
pub is_unsigned_operation_valid_iff :
    (env : Env) (uo : UnsignedOperation)
    → (is_unsigned_operation_valid env uo ≡ true) ↔ IsWellFormed env uo
unfolding is_unsigned_operation_valid
is_unsigned_operation_valid_iff env uo = (
  λ h. record {
    hashed = ground arith;
    type_known = ground arith;
    reason_known = ground arith;
    author_given = ground arith;
    object_given = ground arith;
  },
  λ w. ground (arith, w.hashed, w.type_known, w.reason_known, w.author_given, w.object_given),
)

module _ (env : Env) (typ reason : ℕ) (comment : Bytes) (author_id object_id : EntityId)
    (signer : PrivateKey) where
  -- If ECDSA verifies what it signs and r and s fit a coordinate, an operation that
  -- `EmergeOperation` returns is valid by `IsValid` under the key of the signer.
  pub emerge_operation-is_valid :
      (last : Time) (now : Readings) (o : Operation)
      → IsLawful env
      → (emerge_operation env last now typ reason comment author_id object_id signer).0 ≡ ok o
      → is_operation_valid env o (env.public signer) ≡ ok true
  unfolding emerge_operation is_operation_valid
  emerge_operation-is_valid last now o lawful h =
      let uo = new_unsigned_operation env typ reason comment author_id object_id now.written in
      ground (arith, verify-sign env lawful signer (env.json_operation uo))

-- The name of a reason parses back to the reason, for each reason that there is.
pub parse_reason-reason_string : (r : ℕ) → r ≤ 4 → parse_reason (reason_string r) ≡ ok r
unfolding parse_reason reason_string bytes_eq
parse_reason-reason_string zero h = refl
parse_reason-reason_string (suc zero) h = refl
parse_reason-reason_string (suc (suc zero)) h = refl
parse_reason-reason_string (suc (suc (suc zero))) h = refl
parse_reason-reason_string (suc (suc (suc (suc zero)))) h = refl
parse_reason-reason_string (suc (suc (suc (suc (suc r))))) h = absurd (omega arith)
