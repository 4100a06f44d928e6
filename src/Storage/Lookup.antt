-- ===== src/Storage/Lookup.antt =====
-- storage/storage.go: the searches for entities by identifier, and the root and depth of a message.
use dscuss.Prelude.{
  ℕ, ◌+◌, ◌&&◌, zero, suc, ◌≡◌, ◌<◌, refl, ap, ◌∙◌, Bool, true, false, not, any, find, List, [],
  ◌∷◌, ◌==◌, Option, none, some, Result, ok, err, fatal, is_no_such_entity, Bytes, arith,
  Bool-cases, inl, inr, ◌>>=◌,
}
use dscuss.Subs.Topic.{new_topic}
use dscuss.Entity.{EntityId, Message, Operation, Entity}
use dscuss.Entity.Messages.{is_reply}
use dscuss.Env.{one_message, Env}
use dscuss.Sqlite.{
  EntityDatabase, UserRow, MessageRow, OperationRow, get_user, has_user, find_user, user_of_row,
}
use dscuss.Sqlite.MessageTable.{
  get_message, has_message, find_message, message_of_row, or_inconsistent, found_message,
  parse_topic, topic_string,
}
use dscuss.Sqlite.OperationTable.{
  get_operation, has_operation, find_operation, found_operation, or_failed, joined_operation,
}
use dscuss.Storage.{
  or_next, as_entity, get_entity, has_entity, get_root, count_depth, get_message_depth,
}

-- The message and the chain of its parents, up to a root at the given depth.
pub data Rooted (env : Env) (db : EntityDatabase) : Message → Message → ℕ → Type 0 where
  top : (m : Message) → is_reply m ≡ false → Rooted env db m m 0
  below :
      (m p r : Message) (d : ℕ)
      → is_reply m ≡ true
      → get_message env db m.parent_id ≡ ok p
      → Rooted env db p r d
      → Rooted env db m r (suc d)

get_root-Rooted :
    (env : Env) (db : EntityDatabase) (fuel : ℕ) (m r : Message) (d : ℕ)
    → Rooted env db m r d
    → d < fuel
    → get_root env db fuel m ≡ some (ok r)
unfolding get_root
get_root-Rooted env db zero m r d c h = absurd (omega arith)
get_root-Rooted env db (suc fuel) m r d (Rooted.top n t) h = rw t refl
get_root-Rooted env db (suc fuel) m r d (Rooted.below n p q k t g c) h =
    rw (t, g) (get_root-Rooted env db fuel p q k c (omega arith))

count_depth-Rooted :
    (env : Env) (db : EntityDatabase) (fuel k : ℕ) (m r : Message) (d : ℕ)
    → Rooted env db m r d
    → d < fuel
    → count_depth env db fuel m k ≡ some (ok (k + d))
unfolding count_depth
count_depth-Rooted env db zero k m r d c h = absurd (omega arith)
count_depth-Rooted env db (suc fuel) k m r d (Rooted.top n t) h = rw t (ground arith)
count_depth-Rooted env db (suc fuel) k m r d (Rooted.below n p q e t g c) h =
    rw (t, g)
      (count_depth-Rooted env db fuel (suc k) p q e c (omega arith)
        ∙ ap (λ x. some (ok x)) (omega arith))

-- If the message has a chain of stored parents up to a root, then `GetRoot` and `GetMessageDepth`
-- end after one more turn than the chain is long, with that root and the length of the chain.
pub get_root_total :
    (env : Env) (db : EntityDatabase) (fuel : ℕ) (m r : Message) (d : ℕ)
    → Rooted env db m r d
    → d < fuel
    → (get_root env db fuel m ≡ some (ok r))
      × (get_message_depth env db fuel m ≡ some (ok d))
      × (is_reply r ≡ false)
unfolding get_message_depth
get_root_total env db fuel m r d c h = (
  get_root-Rooted env db fuel m r d c h,
  count_depth-Rooted env db fuel 0 m r d c h ∙ ap (λ x. some (ok x)) (omega arith),
  is_root m r d c,
)
  where
    is_root : (m r : Message) (d : ℕ) → Rooted env db m r d → is_reply r ≡ false
    is_root m r d (Rooted.top n t) = t
    is_root m r d (Rooted.below n p q k t g c) = is_root p q k c

abbrev pub is_missing {ℓ} : {A : Type ℓ} → Result A → Bool
is_missing (ok a) = false
is_missing (err e) = is_no_such_entity e
is_missing fatal = false

or_next_missing : (a b : Result Entity) → is_missing (or_next a b) ≡ (is_missing a && is_missing b)
or_next_missing (ok a) b = refl
or_next_missing (err e) b = elim (Bool-cases (is_no_such_entity e)) [
  | inl same ↦ rw same refl
  | inr other ↦ rw other other
]
or_next_missing fatal b = refl

as_entity_missing {ℓ} :
    {A : Type ℓ} (f : A → Entity) (r : Result A) → is_missing (as_entity f r) ≡ is_missing r
as_entity_missing f (ok a) = refl
as_entity_missing f (err e) = refl
as_entity_missing f fatal = refl

or_inconsistent_missing {ℓ} : {A : Type ℓ} (r : Result A) → is_missing (or_inconsistent r) ≡ false
or_inconsistent_missing (ok a) = refl
or_inconsistent_missing (err e) = refl
or_inconsistent_missing fatal = refl

or_failed_missing : (r : Result Operation) → is_missing (or_failed r) ≡ false
or_failed_missing (ok a) = refl
or_failed_missing (err e) = refl
or_failed_missing fatal = refl

bind_missing {ℓ κ} :
    {A : Type ℓ} {B : Type κ} (r : Result A) (f : A → Result B)
    → is_missing r ≡ false
    → ((a : A) → is_missing (f a) ≡ false)
    → is_missing (r >>= f) ≡ false
bind_missing (ok a) f h k = k a
bind_missing (err e) f h k = h
bind_missing fatal f h k = refl

is_none {ℓ} : {A : Type ℓ} → Option A → Bool
is_none none = true
is_none (some a) = false

find_missing {ℓ} : {A : Type ℓ} (p : A → Bool) (xs : List A) → is_none (find p xs) ≡ not (any p xs)
unfolding is_none
find_missing p [] = refl
find_missing p (x ∷ xs) = ground (arith, find_missing p xs)

get_user_missing :
    (env : Env) (db : EntityDatabase) (eid : EntityId)
    → is_missing (get_user env db eid) ≡ not (has_user db eid)
unfolding get_user find_user has_user is_none
get_user_missing env db eid = by_row (find_user db eid) ∙ find_missing (λ r. r.id == eid) db.users
  where
    by_row : (r : Option UserRow) → is_missing (user_of_row env r) ≡ is_none r
    by_row none = refl
    by_row (some r) = refl

parse_topic_missing : (t : Option Bytes) → is_missing (parse_topic t) ≡ false
parse_topic_missing none = refl
parse_topic_missing (some s) = or_inconsistent_missing (new_topic s)

get_message_missing :
    (env : Env) (db : EntityDatabase) (eid : EntityId)
    → is_missing (get_message env db eid) ≡ not (has_message db eid)
unfolding get_message find_message has_message is_none message_of_row
get_message_missing env db eid =
    by_row (find_message db eid) ∙ find_missing (λ r. r.id == eid) db.messages
  where
    by_row : (r : Option MessageRow) → is_missing (found_message env db eid r) ≡ is_none r
    by_row none = refl
    by_row (some r) =
        bind_missing (parse_topic (topic_string env one_message db eid)) _
          (parse_topic_missing (topic_string env one_message db eid))
          (λ t. or_inconsistent_missing _)

get_operation_missing :
    (env : Env) (db : EntityDatabase) (eid : EntityId)
    → is_missing (get_operation env db eid) ≡ not (has_operation db eid)
unfolding get_operation find_operation has_operation is_none
get_operation_missing env db eid =
    by_row (find_operation db eid) ∙ find_missing (λ r. r.id == eid) db.operations
  where
    by_row : (r : Option OperationRow) → is_missing (found_operation env db r) ≡ is_none r
    by_row none = refl
    by_row (some r) = or_failed_missing (joined_operation env db r)

-- `GetEntity` returns NoSuchEntity if and only if `HasEntity` says that the entity is not there.
pub get_entity_missing :
    (env : Env) (db : EntityDatabase) (eid : EntityId)
    → is_missing (get_entity env db eid) ≡ not (has_entity db eid)
unfolding get_entity has_entity
get_entity_missing env db eid =
    let u = as_entity_missing Entity.user (get_user env db eid) ∙ get_user_missing env db eid in
    let m =
      as_entity_missing Entity.message (get_message env db eid) ∙ get_message_missing env db eid in
    let o =
      as_entity_missing Entity.operation (get_operation env db eid)
      ∙ get_operation_missing env db eid in
    or_next_missing (as_entity Entity.user (get_user env db eid)) _
    ∙ ap (λ b. is_missing (as_entity Entity.user (get_user env db eid)) && b)
        (or_next_missing (as_entity Entity.message (get_message env db eid)) _)
    ∙ rw (u, m, o) (ground arith)
