-- ===== src/Crypto/Signing.antt =====
-- crypto/signer.go and public_key.go: `Sign` and `Verify` together.
use native.Mathlib.Nat.{pow-suc}
use dscuss.Prelude.{
  ℕ, zero, suc, ◌+◌, ◌*◌, ◌/◌, ◌%◌, ◌^◌, ◌<◌, ◌≡◌, refl, ap, ◌∙◌, Bytes, true, [], ◌∷◌, ◌++◌,
  length, length-append, take, drop, ok, fatal, arith,
}
use dscuss.Entity.{PublicKey, PrivateKey, Signature}
use dscuss.Env.{Env, IsLawful}
use dscuss.Crypto.{set_bytes, fill, verify, sign}

length-fill : (n x : ℕ) → length (fill n x) ≡ n
unfolding fill
length-fill zero x = refl
length-fill (suc n) x =
    omega (arith, length-append (fill n (x / 256)) ((x % 256) ∷ []), length-fill n (x / 256))

set_bytes-append : (acc : ℕ) (a b : Bytes) → set_bytes acc (a ++ b) ≡ set_bytes (set_bytes acc a) b
unfolding set_bytes
set_bytes-append acc [] b = refl
set_bytes-append acc (x ∷ a) b = set_bytes-append (acc * 256 + x) a b

set_bytes-fill : (n x : ℕ) → x < 256 ^ n → set_bytes 0 (fill n x) ≡ x
unfolding fill set_bytes
set_bytes-fill zero x h = omega arith
set_bytes-fill (suc n) x h =
    set_bytes-append 0 (fill n (x / 256)) ((x % 256) ∷ [])
    ∙ omega (arith, set_bytes-fill n (x / 256) (omega (arith, pow-suc 256 n)))

take-append : (a b : Bytes) (n : ℕ) → length a ≡ n → take n (a ++ b) ≡ a
take-append [] b zero h = refl
take-append [] b (suc n) h = absurd (omega arith)
take-append (x ∷ a) b zero h = absurd (omega arith)
take-append (x ∷ a) b (suc n) h = ap (◌∷◌ x) (take-append a b n (omega arith))

drop-append : (a b : Bytes) (n : ℕ) → length a ≡ n → drop n (a ++ b) ≡ b
drop-append [] b zero h = refl
drop-append [] b (suc n) h = absurd (omega arith)
drop-append (x ∷ a) b zero h = absurd (omega arith)
drop-append (x ∷ a) b (suc n) h = drop-append a b n (omega arith)

-- A signature made by `Sign` is verified by the key of the signer: r and s come back from the
-- bytes whole, leading zeros included. This needs ECDSA to be sound on its own signatures and
-- r and s to fit the bytes of a coordinate.
pub verify-sign :
    (env : Env) (lawful : IsLawful env) (signer : PrivateKey) (bytes : Bytes)
    → verify env (env.public signer) bytes (sign env signer bytes) ≡ ok true
unfolding verify sign
verify-sign env lawful signer bytes =
    let n = env.curve_len (env.public signer) in
    let h = env.sha256 bytes in
    let r = (env.ecdsa_sign signer h).0 in
    let s = (env.ecdsa_sign signer h).1 in
    rw
      (
        take-append (fill n r) (fill n s) n (length-fill n r),
        drop-append (fill n r) (fill n s) n (length-fill n r),
        set_bytes-fill n r (lawful.fits signer h).0,
        set_bytes-fill n s (lawful.fits signer h).1,
        lawful.verifies signer h,
      )
      (ground (arith, length-append (fill n r) (fill n s), length-fill n r))

-- A signature shorter than a coordinate of the key's curve ends the process, whatever the data.
pub verify_short :
    (env : Env) (key : PublicKey) (bytes : Bytes) (sig : Signature)
    → length sig < env.curve_len key
    → verify env key bytes sig ≡ fatal
unfolding verify
verify_short env key bytes sig h = ground arith
