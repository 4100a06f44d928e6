-- ===== src/Sqlite.antt =====
-- sqlite/entity_database.go: the tables, and the users. A statement is read by what SQL defines for
-- it; rows stand in the order of their insertion. A tag is named by itself in place of its row
-- number. A column holds the value whose encoding is stored: `Encode` and `ParseSignature`,
-- `EncodeToDER` and `ParsePublicKeyFromDER` are left out. No statement fails but by a constraint.
pub mod MessageTable
pub mod MessageQueries
pub mod OperationTable
pub mod Threads
pub mod Since
pub mod ProfileDatabase
use dscuss.Prelude.{
  true, false, not, ltb, ◌&&◌, ◌||◌, ℕ, Bytes, Bool, List, [], ◌∷◌, ◌++◌, any, find, ◌==◌,
  if◌then◌else◌, Option, none, some, Result, ok, err, no_such_entity,
}
use dscuss.Entity.{EntityId, Time, PublicKey, Signature, User}
use dscuss.Entity.Users.{new_user}
use dscuss.Env.{Env}

pub record UserRow : Type 0 where
  pub id : EntityId
  pub public_key : PublicKey
  pub proof : ℕ
  pub nickname : Bytes
  pub info : Bytes
  pub timestamp : Time
  pub signature : Signature
  pub time_stored : Time

pub record MessageRow : Type 0 where
  pub id : EntityId
  pub subject : Bytes
  pub content : Bytes
  pub timestamp : Time
  pub author_id : EntityId
  pub parent_id : EntityId
  pub signature : Signature
  pub time_stored : Time

pub record OperationRow : Type 0 where
  pub id : EntityId
  pub typ : ℕ
  pub reason : ℕ
  pub comment : Bytes
  pub author_id : EntityId
  pub timestamp : Time
  pub signature : Signature
  pub time_stored : Time

-- A row of Operations_on_Users or of Operations_on_Messages.
pub record ObjectRow : Type 0 where
  pub operation_id : EntityId
  pub object_id : EntityId

pub record MessageTag : Type 0 where
  pub tag : Bytes
  pub message_id : EntityId

pub record EntityDatabase : Type 0 where
  pub users : List UserRow
  pub messages : List MessageRow
  pub operations : List OperationRow
  pub operations_on_users : List ObjectRow
  pub operations_on_messages : List ObjectRow
  pub tags : List Bytes
  pub message_tags : List MessageTag

-- The order of texts, byte by byte.
unfoldable pub text_less : Bytes → Bytes → Bool
text_less [] [] = false
text_less [] (y ∷ ys) = true
text_less (x ∷ xs) [] = false
text_less (x ∷ xs) (y ∷ ys) = ltb x y || (x == y) && text_less xs ys

-- TimeStored>=?, a comparison of texts.
unfoldable pub is_stored_after : Env → Time → Time → Bool
unfolding text_less
is_stored_after env ts stored = not (text_less (env.stored_text stored) (env.argument_text ts))

abbrev pub empty : EntityDatabase
empty = record {
  users = [];
  messages = [];
  operations = [];
  operations_on_users = [];
  operations_on_messages = [];
  tags = [];
  message_tags = [];
}

-- INSERT into a table whose primary key has ON CONFLICT IGNORE.
abbrev pub insert_or_ignore {ℓ} : {A : Type ℓ} → (A → EntityId) → A → List A → List A
insert_or_ignore key row rows = if any (λ r. key r == key row) rows then rows else rows ++ row ∷ []

unfoldable pub put_user : EntityDatabase → User → Time → EntityDatabase
put_user db user ts =
    let row =
      let r : UserRow = record {
        id = user.id;
        public_key = user.pub_key;
        proof = user.proof;
        nickname = user.nickname;
        info = user.info;
        timestamp = user.reg_date;
        signature = user.sig;
        time_stored = ts;
      } in
      r in
    record db { users = insert_or_ignore (λ r. r.id) row db.users }

unfoldable pub find_user : EntityDatabase → EntityId → Option UserRow
find_user db eid = find (λ r. r.id == eid) db.users

abbrev pub user_of_row : Env → Option UserRow → Result User
user_of_row env none = err no_such_entity
user_of_row env (some r) =
    ok (new_user env r.nickname r.info r.public_key r.proof r.timestamp r.signature)

unfoldable pub get_user : Env → EntityDatabase → EntityId → Result User
unfolding find_user
get_user env db eid = user_of_row env (find_user db eid)

unfoldable pub has_user : EntityDatabase → EntityId → Bool
has_user db eid = any (λ r. r.id == eid) db.users
