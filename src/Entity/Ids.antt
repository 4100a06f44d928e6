-- ===== src/Entity/Ids.antt =====
-- entity/entity.go: the text of an ID. `shorten` stands with its first use, in Peer/Receiving.
use dscuss.Prelude.{
  ℕ, ◌==◌, not, Bytes, length, take, [], ◌∷◌, ◌++◌, if◌then◌else◌, Option, none, some, Result, ok,
  err, parsing, zero, suc,
}
use dscuss.Entity.{EntityId, zero_id}
use dscuss.Crypto.{set_bytes}
use dscuss.Env.{Env}

abbrev pub zeros : ℕ → Bytes
zeros zero = []
zeros (suc n) = 0 ∷ zeros n

-- `copy(i[:], res[:])` into an ID that is zero: bytes that are missing stay zero, and bytes past
-- the 32nd are dropped.
unfoldable pub copied : Bytes → EntityId
unfolding set_bytes
copied res = set_bytes 0 (take 32 (res ++ zeros 32))

abbrev pub decoded : Option Bytes → Result EntityId
unfolding copied
decoded none = err parsing
decoded (some res) = ok (copied res)

-- `ParseString` of an ID that is zero. `decode` is base64.StdEncoding.DecodeString.
unfoldable pub parse_string : Env → (Bytes → Option Bytes) → Bytes → Result EntityId
unfolding decoded
parse_string env decode s =
    if not (length s == length (env.base64 zero_id)) then err parsing else decoded (decode s)
