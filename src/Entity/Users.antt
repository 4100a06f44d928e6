-- ===== src/Entity/Users.antt =====
-- entity/user.go.
use dscuss.Prelude.{
  ℕ, ◌+◌, Bytes, Bool, true, false, not, ◌&&◌, ◌||◌, length, all, ltb, leb, ◌==◌, if◌then◌else◌, [],
  ◌∷◌, Result, ok, err, ◌>>=◌, wrong_nickname,
}
use dscuss.Entity.{
  EntityId, Time, unix_zero, type_user, Signature, PublicKey, PrivateKey, UserContent, UnsignedUser,
  User,
}
use dscuss.Env.{Env}
use dscuss.Crypto.{sign, verify, validate_pow}

abbrev pub max_username_len : ℕ
max_username_len = 64

-- `Epoch`, 1 January 2019.
abbrev pub epoch : Time
epoch = unix_zero + 1546300800000000000

-- The class [a-zA-Z0-9_] of `nicknameRegex`.
unfoldable pub is_nickname_char : ℕ → Bool
is_nickname_char c =
    leb b'a' c && leb c b'z' || leb b'A' c && leb c b'Z' || leb b'0' c && leb c b'9' || c == b'_'

abbrev is_nonempty : Bytes → Bool
is_nonempty [] = false
is_nonempty (c ∷ s) = true

unfoldable pub is_nickname_valid : Bytes → Bool
unfolding is_nickname_char
is_nickname_valid nickname =
    leb (length nickname) max_username_len
    && (is_nonempty nickname && all is_nickname_char nickname)

unfoldable pub new_user_content : Bytes → Bytes → PublicKey → ℕ → Time → UserContent
new_user_content nickname info pub_key proof reg_date = record {
  pub_key = pub_key;
  proof = proof;
  nickname = nickname;
  info = info;
  reg_date = reg_date;
}

-- `UserContent.ToID`: the hash of the key.
unfoldable pub user_to_id : Env → UserContent → EntityId
user_to_id env uc = env.sha256 uc.pub_key

unfoldable pub new_unsigned_user : Env → Bytes → Bytes → PublicKey → ℕ → Time → UnsignedUser
unfolding new_user_content user_to_id
new_unsigned_user env nickname info pub_key proof reg_date =
    let uc = new_user_content nickname info pub_key proof reg_date in
    record { descriptor = record { typ = type_user; id = user_to_id env uc }; content = uc }

-- `UnsignedUser.isValid`
unfoldable pub is_unsigned_user_valid : Env → UnsignedUser → Bool
unfolding user_to_id validate_pow is_nickname_valid
is_unsigned_user_valid env uu =
    if not (uu.id == user_to_id env uu.content)
    then false
    else if ltb uu.reg_date epoch
    then false
    else if not (validate_pow env uu.pub_key uu.proof)
    then false
    else if not (is_nickname_valid uu.nickname)
    then false
    else true

-- `User.IsValid`: the signature first, by the key that the user itself states.
unfoldable pub is_user_valid : Env → User → Result Bool
unfolding verify is_unsigned_user_valid
is_user_valid env u = do
  signed ← verify env u.pub_key (env.json_user u.unsigned) u.sig
  if signed then ok (is_unsigned_user_valid env u.unsigned) else ok false

unfoldable pub new_user : Env → Bytes → Bytes → PublicKey → ℕ → Time → Signature → User
unfolding new_unsigned_user
new_user env nickname info pub_key proof reg_date sig = record {
  unsigned = new_unsigned_user env nickname info pub_key proof reg_date;
  sig = sig;
}

unfoldable pub emerge_user : Env → Bytes → Bytes → ℕ → PrivateKey → Time → Result User
unfolding new_unsigned_user is_unsigned_user_valid sign
emerge_user env nickname info proof signer now =
    let uu = new_unsigned_user env nickname info (env.public signer) proof now in
    if is_unsigned_user_valid env uu
    then ok (record { unsigned = uu; sig = sign env signer (env.json_user uu) })
    else err wrong_nickname
