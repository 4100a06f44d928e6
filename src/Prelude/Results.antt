-- ===== src/Prelude/Results.antt =====
-- errors/errors.go, and what a function that may fail returns.
use mathlib.Core.Bool.{Bool, true, false}

-- The errors of errors/errors.go that the modelled code returns.
pub data Error : Type 0 where
  parsing db_oper_failed inconsistent_db no_such_entity wrong_nickname already_moderator : Error
  no_such_moderator no_user_history wrong_packet_type malformed_payload protocol_violation : Error
  unsupported_protocol closed_connection invalid_peer wrong_arguments already_subscribed : Error
  not_subscribed forbidden_operation user_banned no_such_tag packet_size_exceeded : Error
  msg_depth_exceeded msg_post_rate_err oper_post_rate_err no_such_user already_registered : Error
  already_logged_in filesystem internal database : Error

-- `fatal` is a call of `log.Fatal` or `log.Fatalf`, which ends the process.
pub data Result {ℓ} (A : Type ℓ) : Type ℓ where
  ok : A → Result A
  err : Error → Result A
  fatal : Result A

infixl 5 ◌>>=◌
abbrev pub ◌>>=◌ {ℓ κ} : {A : Type ℓ} {B : Type κ} → Result A → (A → Result B) → Result B
ok a >>= f = f a
err e >>= f = err e
fatal >>= f = fatal

-- `err == errors.NoSuchEntity`
abbrev pub is_no_such_entity : Error → Bool
is_no_such_entity no_such_entity = true
is_no_such_entity _ = false

-- What a function returns whose only result is an error or nil.
abbrev pub Outcome : Type 0
Outcome = Result (Unit {0})
