-- ===== src/Entity/Operations.antt =====
-- entity/operation.go. `lastOperTimestamp` is passed in and handed back.
pub mod Performing
use dscuss.Prelude.{
  ℕ, ◌-◌, Bytes, Bool, true, false, not, ◌&&◌, ◌||◌, ltb, ◌==◌, if◌then◌else◌, codes, bytes_eq,
  Result, ok, err, fatal, wrong_arguments, oper_post_rate_err, parsing,
}
use dscuss.Entity.{
  EntityId, Time, Duration, minute, is_zero, type_operation, Signature, PublicKey, PrivateKey,
  OperationContent, UnsignedOperation, Operation,
}
use dscuss.Env.{Env}
use dscuss.Crypto.{sign, verify}
use dscuss.Entity.Messages.{Readings}

abbrev pub type_remove_message : ℕ
type_remove_message = 0

abbrev pub type_ban_user : ℕ
type_ban_user = 1

abbrev pub reason_protocol_violation : ℕ
reason_protocol_violation = 0

abbrev pub reason_spam : ℕ
reason_spam = 1

abbrev pub reason_offtopic : ℕ
reason_offtopic = 2

abbrev pub reason_abuse : ℕ
reason_abuse = 3

abbrev pub reason_duplicate : ℕ
reason_duplicate = 4

abbrev pub min_operation_post_delay : Duration
min_operation_post_delay = minute

-- `OperationReason.String`
unfoldable pub reason_string : ℕ → Bytes
reason_string r =
    if r == reason_protocol_violation
    then codes "ProtocolViolation"
    else if r == reason_spam
    then codes "SPAM"
    else if r == reason_offtopic
    then codes "Offtopic"
    else if r == reason_abuse
    then codes "Abuse"
    else if r == reason_duplicate
    then codes "Duplicate"
    else codes "unknown operation reason"

-- `OperationReason.ParseString`
unfoldable pub parse_reason : Bytes → Result ℕ
parse_reason s =
    if bytes_eq s (codes "ProtocolViolation")
    then ok reason_protocol_violation
    else if bytes_eq s (codes "SPAM")
    then ok reason_spam
    else if bytes_eq s (codes "Offtopic")
    then ok reason_offtopic
    else if bytes_eq s (codes "Abuse")
    then ok reason_abuse
    else if bytes_eq s (codes "Duplicate")
    then ok reason_duplicate
    else err parsing

unfoldable pub new_operation_content : ℕ → ℕ → Bytes → EntityId → EntityId → Time → OperationContent
new_operation_content typ reason comment author_id object_id date_performed = record {
  operation_type = typ;
  reason = reason;
  comment = comment;
  author_id = author_id;
  object_id = object_id;
  date_performed = date_performed;
}

-- `OperationContent.ToID`
unfoldable pub operation_to_id : Env → OperationContent → EntityId
operation_to_id env oc = env.sha256 (env.json_operation_content oc)

unfoldable pub new_unsigned_operation :
    Env → ℕ → ℕ → Bytes → EntityId → EntityId → Time → UnsignedOperation
unfolding new_operation_content operation_to_id
new_unsigned_operation env typ reason comment author_id object_id date_performed =
    let oc = new_operation_content typ reason comment author_id object_id date_performed in
    record {
      descriptor = record { typ = type_operation; id = operation_to_id env oc };
      content = oc;
    }

-- `UnsignedOperation.isValid`
unfoldable pub is_unsigned_operation_valid : Env → UnsignedOperation → Bool
unfolding operation_to_id is_zero
is_unsigned_operation_valid env uo =
    let t = uo.operation_type in
    let r = uo.reason in
    let is_reason_ok =
      r == reason_spam
      || r == reason_offtopic
      || r == reason_abuse
      || r == reason_duplicate
      || r == reason_protocol_violation in
    if not (uo.id == operation_to_id env uo.content)
    then false
    else if not (t == type_remove_message) && not (t == type_ban_user)
    then false
    else if not is_reason_ok
    then false
    else if is_zero uo.author_id
    then false
    else if is_zero uo.object_id
    then false
    else true

-- `IsUnsignedPartValid`
unfoldable pub is_unsigned_part_valid : Env → Operation → Bool
unfolding is_unsigned_operation_valid
is_unsigned_part_valid env o = is_unsigned_operation_valid env o.unsigned

unfoldable pub is_sig_valid : Env → Operation → PublicKey → Result Bool
unfolding verify
is_sig_valid env o pub_key = verify env pub_key (env.json_operation o.unsigned) o.sig

unfoldable pub is_operation_valid : Env → Operation → PublicKey → Result Bool
unfolding is_unsigned_part_valid is_sig_valid
is_operation_valid env o pub_key =
    if is_unsigned_part_valid env o then is_sig_valid env o pub_key else ok false

abbrev pub valid_or_wrong : Env → UnsignedOperation → Signature → Result Operation
valid_or_wrong env uo sig =
    if is_unsigned_operation_valid env uo
    then ok (record { unsigned = uo; sig = sig })
    else err wrong_arguments

unfoldable pub new_operation :
    Env → ℕ → ℕ → Bytes → EntityId → EntityId → Time → Signature → Result Operation
unfolding new_unsigned_operation is_unsigned_operation_valid
new_operation env typ reason comment author_id object_id date_performed sig =
    valid_or_wrong env
      (new_unsigned_operation env typ reason comment author_id object_id date_performed) sig

-- `EmergeOperation`: the operation or the error, and the new `lastOperTimestamp`.
unfoldable pub emerge_operation :
    Env
    → Time
    → Readings
    → ℕ
    → ℕ
    → Bytes
    → EntityId
    → EntityId
    → PrivateKey
    → Result Operation × Time
unfolding new_unsigned_operation is_unsigned_operation_valid sign
emerge_operation env last now typ reason comment author_id object_id signer =
    let uo = new_unsigned_operation env typ reason comment author_id object_id now.written in
    if ltb (now.checked - last) min_operation_post_delay
    then (err oper_post_rate_err, last)
    else (valid_or_wrong env uo (sign env signer (env.json_operation uo)), now.stamped)
