-- ===== src/Crypto.antt =====
-- crypto/: signatures and proof of work.
pub mod Signing
pub mod Keys
pub mod Proving
use dscuss.Prelude.{
  ℕ, zero, suc, ◌+◌, ◌-◌, ◌*◌, ◌/◌, ◌%◌, ◌^◌, Bytes, Bool, List, [], ◌∷◌, ◌++◌, length, take, drop,
  ltb, Result, ok, fatal, if◌then◌else◌,
}
use dscuss.Entity.{PublicKey, PrivateKey, Signature}
use dscuss.Env.{Env}

-- big.Int.SetBytes: most significant byte first.
unfoldable pub set_bytes : ℕ → Bytes → ℕ
set_bytes acc [] = acc
set_bytes acc (b ∷ bs) = set_bytes (acc * 256 + b) bs

-- The `n` bytes of a number, zeros on the left.
unfoldable pub fill : ℕ → ℕ → Bytes
fill zero x = []
fill (suc n) x = fill n (x / 256) ++ (x % 256) ∷ []

-- `Verify` of public_key.go. `sig[:n]` of a shorter signature is a panic.
unfoldable pub verify : Env → PublicKey → Bytes → Signature → Result Bool
unfolding set_bytes
verify env key bytes sig =
    let n = env.curve_len key in
    if ltb (length sig) n
    then fatal
    else ok (
        env.ecdsa_verify key (env.sha256 bytes) (set_bytes 0 (take n sig))
          (set_bytes 0 (drop n sig)))

-- `Sign` of signer.go: r and s, each filled to the length of a coordinate.
unfoldable pub sign : Env → PrivateKey → Bytes → Signature
unfolding fill
sign env key bytes =
    let (r, s) = env.ecdsa_sign key (env.sha256 bytes) in
    let n = env.curve_len (env.public key) in fill n r ++ fill n s

abbrev pub pow_target_bits : ℕ
pow_target_bits = 8

abbrev pub pow_key_len_bytes : ℕ
pow_key_len_bytes = 32

-- The target of `NewPowFinder`.
abbrev pub pow_target : ℕ
pow_target = 2 ^ (pow_key_len_bytes * 8 - pow_target_bits)

-- `prepareData`: the data, and the nonce in eight bytes.
unfoldable pub prepare_data : Bytes → ℕ → Bytes
unfolding fill
prepare_data bytes nonce = bytes ++ fill 8 nonce

-- `Validate` of pow.go, of a finder made by `NewPowFinder`.
unfoldable pub validate_pow : Env → Bytes → ℕ → Bool
unfolding prepare_data
validate_pow env bytes nonce = ltb (env.scrypt (prepare_data bytes nonce)) pow_target
