-- ===== src/Crypto/Keys.antt =====
-- crypto/private_key.go: the private key in a file.
use dscuss.Prelude.{
  ◌≡◌, refl, Bytes, codes, bytes_eq, bytes_eq_refl, if◌then◌else◌, Option, none, some, Result, ok,
  err, fatal, parsing,
}
use dscuss.Entity.{PrivateKey}

-- crypto/x509 and encoding/pem. A block is its type and its bytes; none is no block, or bytes that
-- are no key.
pub record KeyCodec : Type 0 where
  pub marshal_ec : PrivateKey → Bytes
  pub parse_ec : Bytes → Option PrivateKey
  pub encode_block : Bytes → Bytes → Bytes
  pub decode_block : Bytes → Option (Bytes × Bytes)

-- What the two libraries document: each decoder reads what its encoder writes.
pub record Decodes (c : KeyCodec) : Type 0 where
  pub parse-marshal : (k : PrivateKey) → c.parse_ec (c.marshal_ec k) ≡ some k
  pub decode-encode : (t b : Bytes) → c.decode_block (c.encode_block t b) ≡ some (t, b)

abbrev pub block_type : Bytes
block_type = codes "EC PRIVATE KEY"

abbrev pub or_parsing : Option PrivateKey → Result PrivateKey
or_parsing none = err parsing
or_parsing (some k) = ok k

unfoldable pub parse_private_key_from_der : KeyCodec → Bytes → Result PrivateKey
parse_private_key_from_der c der = or_parsing (c.parse_ec der)

-- Where there is no block, `block.Type` of the nil block is a panic.
abbrev pub key_of_block : KeyCodec → Option (Bytes × Bytes) → Result PrivateKey
unfolding parse_private_key_from_der
key_of_block c none = fatal
key_of_block c (some (t, b)) =
    if bytes_eq t block_type then parse_private_key_from_der c b else err parsing

unfoldable pub parse_private_key_from_pem : KeyCodec → Bytes → Result PrivateKey
unfolding key_of_block
parse_private_key_from_pem c encoded = key_of_block c (c.decode_block encoded)

unfoldable pub encode_to_der : KeyCodec → PrivateKey → Bytes
encode_to_der c key = c.marshal_ec key

unfoldable pub encode_to_pem : KeyCodec → PrivateKey → Bytes
unfolding encode_to_der
encode_to_pem c key = c.encode_block block_type (encode_to_der c key)

-- A private key is read from what it was written as.
pub parse_private_key_from_pem-encode_to_pem :
    (c : KeyCodec)
    → Decodes c
    → (k : PrivateKey) → parse_private_key_from_pem c (encode_to_pem c k) ≡ ok k
unfolding parse_private_key_from_pem encode_to_pem
parse_private_key_from_pem-encode_to_pem c d k =
    rw (d.decode-encode block_type (c.marshal_ec k), bytes_eq_refl block_type, d.parse-marshal k)
      refl
