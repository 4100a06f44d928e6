-- ===== src/Peer/Receiving/Verdicts/Accepted.antt =====
-- p2p/peer/state_receiving.go: what is known of an entity that matches.
use dscuss.Prelude.{
  ◌≡◌, ◌≤◌, ◌⊎◌, inl, inr, refl, Bytes, Bool, true, false, ◌||◌, ◌++◌, ◌==◌, codes, List, ltb,
  arith, Option, none, some, Bool-cases, Result, ok, err, fatal,
}
use dscuss.Entity.{EntityId, is_zero, Message, Operation, User, Entity}
use dscuss.Entity.Messages
use dscuss.Entity.Operations
use dscuss.Entity.Operations.{type_ban_user}
use dscuss.Entity.Messages.{min_message_post_delay}
use dscuss.Subs.Subscriptions.{Subscriptions, covers}
use dscuss.Env.{Env}
use dscuss.Sqlite.{EntityDatabase, get_user}
use dscuss.Sqlite.MessageTable.{has_message}
use dscuss.Sqlite.MessageQueries.{get_near_message_id}
use dscuss.Storage.{has_entity}
use dscuss.Owner.Profile.{Profile, get_subscriptions}
use dscuss.Owner.View.{is_user_banned}
use dscuss.Peer.Receiving.{
  matched, skip, need_id, shorten, get_pending_entity, get_pending_user, get_pending_message,
  get_near_pending_message_id, is_present,
}
use dscuss.Peer.Receiving.Verdicts.{
  Checked, if_covered, unless_user_banned, with_stored, with_author, if_signed, if_not_near,
  or_else, check_parent, check_message_of, check_post, check_message, check_object, check_operation,
}

abbrev Matches : Checked → Type 0
Matches c = c.0 ≡ ok matched

unless_user_banned-matched :
    (r : Result Bool × Profile) (k : Profile → Checked)
    → Matches (unless_user_banned r k)
    → (r.0 ≡ ok false) × Matches (k r.1)
unless_user_banned-matched (ok true, p) k h = absurd (ground arith)
unless_user_banned-matched (ok false, p) k h = (refl, h)
unless_user_banned-matched (err e, p) k h = absurd (ground arith)
unless_user_banned-matched (fatal, p) k h = absurd (ground arith)

with_stored-matched :
    (id : EntityId) (p : Profile) (r : Result User) (k : User → Checked)
    → Matches (with_stored id p r k)
    → (u : User) × (r ≡ ok u) × Matches (k u)
with_stored-matched id p (ok u) k h = (u, refl, h)
with_stored-matched id p (err e) k h = absurd (ground arith)
with_stored-matched id p fatal k h = absurd (ground arith)

with_author-matched :
    (id : EntityId) (p : Profile) (o : Option User) (r : Result User) (k : User → Checked)
    → Matches (with_author id p o r k)
    → (u : User) × ((o ≡ some u) ⊎ (r ≡ ok u)) × Matches (k u)
with_author-matched id p (some u) r k h = (u, inl refl, h)
with_author-matched id p none r k h =
    let (u, e, n) = with_stored-matched id p r k h in (u, inr e, n)

if_signed-matched :
    (comment : Bytes) (p : Profile) (r : Result Bool) (next : Checked)
    → Matches (if_signed comment p r next)
    → (r ≡ ok true) × Matches next
if_signed-matched comment p (ok true) next h = (refl, h)
if_signed-matched comment p (ok false) next h = absurd (ground arith)
if_signed-matched comment p (err e) next h = absurd (ground arith)
if_signed-matched comment p fatal next h = absurd (ground arith)

if_not_near-matched :
    (env : Env) (m : Message) (p : Profile) (a b : Option EntityId) (next : Checked)
    → Matches (if_not_near env m p (or_else a b) next)
    → (a ≡ none) × (b ≡ none) × Matches next
if_not_near-matched env m p none none next h = (refl, refl, h)
if_not_near-matched env m p none (some b) next h = absurd (ground arith)
if_not_near-matched env m p (some a) b next h = absurd (ground arith)

check_parent-matched :
    (env : Env) (db : EntityDatabase) (p : Profile) (pending : List Entity) (m : Message)
    → Matches (check_parent env db p pending m)
    → is_zero m.parent_id ≡ false
    → (has_message db m.parent_id || is_present (get_pending_message pending m.parent_id)) ≡ true
unfolding check_parent
check_parent-matched env db p pending m h z =
    elim (Bool-cases
      (has_message db m.parent_id || is_present (get_pending_message pending m.parent_id))) [
        | inl there ↦ there
        | inr missing ↦
            let k : Matches (ok (need_id m.parent_id), p) = rw (z, missing) at h in
            absurd (ground arith)
      ]

if_covered-matched :
    (env : Env) (m : Message) (r : Result Subscriptions × Profile)
    → Matches (if_covered env m r)
    → (s : Subscriptions) × (r.0 ≡ ok s) × (covers s m.topic ≡ true)
unfolding if_covered
if_covered-matched env m (ok s, p) h = elim (Bool-cases (covers s m.topic)) [
  | inl wanted ↦ (s, refl, wanted)
  | inr other ↦ let k = rw other at h in absurd (ground arith)
]
if_covered-matched env m (err e, p) h = absurd (ground arith)
if_covered-matched env m (fatal, p) h = absurd (ground arith)

check_parent-matched_root :
    (env : Env) (db : EntityDatabase) (p : Profile) (pending : List Entity) (m : Message)
    → Matches (check_parent env db p pending m)
    → is_zero m.parent_id ≡ true
    → (s : Subscriptions) × ((get_subscriptions p).0 ≡ ok s) × (covers s m.topic ≡ true)
unfolding check_parent
check_parent-matched_root env db p pending m h z =
    if_covered-matched env m (get_subscriptions p) (rw z at h)

-- What the receiver knows of a message that matches.
pub record IsAccepted (env : Env) (db : EntityDatabase) (p : Profile) (pending : List Entity)
    (m : Message) : Type 0 where
  pub author : User
  pub well_formed : Messages.is_unsigned_part_valid env m ≡ true
  pub author_not_banned : (is_user_banned env db p m.author_id).0 ≡ ok false
  pub author_known :
      (get_pending_user pending m.author_id ≡ some author)
      ⊎ (get_user env db m.author_id ≡ ok author)
  pub signed : Messages.is_sig_valid env m author.pub_key ≡ ok true
  pub registered_before : author.reg_date ≤ m.date_written
  pub alone_in_db : get_near_message_id db m min_message_post_delay ≡ none
  pub alone_in_pending : get_near_pending_message_id pending m min_message_post_delay ≡ none
  pub parent_known :
      is_zero m.parent_id ≡ false
      → (has_message db m.parent_id || is_present (get_pending_message pending m.parent_id)) ≡ true
  pub root_covered :
      is_zero m.parent_id ≡ true
      → (s : Subscriptions) × ((get_subscriptions (is_user_banned env db p m.author_id).1).0 ≡ ok s)
        × (covers s m.topic ≡ true)

-- A message that matches is well formed and signed by its author, who is known, is not banned and was
-- registered before it; no message of the author is too near to it; its parent, if it is a reply, is
-- stored or pending, and its topic, if it is none, is covered by the owner's subscriptions.
pub check_message_matched :
    (env : Env) (db : EntityDatabase) (p : Profile) (pending : List Entity) (m : Message)
    → (check_message env db p pending m).0 ≡ ok matched
    → IsAccepted env db p pending m
unfolding check_message check_message_of check_post
check_message_matched env db p pending m h =
    elim (Bool-cases (Messages.is_unsigned_part_valid env m)) [
      | inr bad ↦ let k = rw bad at h in absurd (ground arith)
      | inl valid ↦
          let rest = λ (q : Profile).
            with_author m.author_id q (get_pending_user pending m.author_id)
              (get_user env db m.author_id) (λ u. check_message_of env db q pending m u) in
          let (not_banned, k) =
            unless_user_banned-matched (is_user_banned env db p m.author_id) rest (rw valid at h) in
          let q = (is_user_banned env db p m.author_id).1 in
          let (u, known, k2) =
            with_author-matched m.author_id q _ _ (λ u. check_message_of env db q pending m u) k in
          let (signed, k3) = if_signed-matched _ q _ (check_post env db q pending m u) k2 in
          elim (Bool-cases (ltb m.date_written u.reg_date)) [
            | inl late ↦ let k4 = rw late at k3 in absurd (ground arith)
            | inr early ↦
                let (in_db, in_pending, k5) = if_not_near-matched env m q _ _ _ (rw early at k3) in
                record {
                  author = u;
                  well_formed = valid;
                  author_not_banned = not_banned;
                  author_known = known;
                  signed = signed;
                  registered_before = ground arith;
                  alone_in_db = in_db;
                  alone_in_pending = in_pending;
                  parent_known = check_parent-matched env db q pending m k5;
                  root_covered = check_parent-matched_root env db q pending m k5;
                }
          ]
    ]

check_object-matched :
    (db : EntityDatabase) (p : Profile) (pending : List Entity) (o : Operation)
    → Matches (check_object db p pending o)
    → (is_present (get_pending_entity pending o.object_id) || has_entity db o.object_id) ≡ true
unfolding check_object
check_object-matched db p pending o h =
    elim (Bool-cases
      (is_present (get_pending_entity pending o.object_id) || has_entity db o.object_id)) [
        | inl there ↦ there
        | inr missing ↦ elim (Bool-cases (o.operation_type == type_ban_user)) [
          | inl ban ↦ let k : Matches (ok skip, p) = rw (missing, ban) at h in absurd (ground arith)
          | inr other ↦
              let k : Matches (ok (need_id o.object_id), p) = rw (missing, other) at h in
              absurd (ground arith)
        ]
      ]

-- An operation that matches is well formed and signed by its author, who is known and not banned, and
-- its object is stored or pending.
pub check_operation_matched :
    (env : Env) (db : EntityDatabase) (p : Profile) (pending : List Entity) (o : Operation)
    → (check_operation env db p pending o).0 ≡ ok matched
    → (Operations.is_unsigned_part_valid env o ≡ true)
      × ((is_user_banned env db p o.author_id).0 ≡ ok false)
      × ((u : User) × ((get_pending_user pending o.author_id ≡ some u)
            ⊎ (get_user env db o.author_id ≡ ok u))
          × (Operations.is_sig_valid env o u.pub_key ≡ ok true))
      × ((is_present (get_pending_entity pending o.object_id) || has_entity db o.object_id) ≡ true)
unfolding check_operation
check_operation_matched env db p pending o h =
    elim (Bool-cases (Operations.is_unsigned_part_valid env o)) [
      | inr bad ↦ let k = rw bad at h in absurd (ground arith)
      | inl valid ↦
          let comment =
            codes "peer sent operation " ++ shorten env o.id ++ codes " with invalid signature" in
          let signed_by = λ (q : Profile) (u : User).
            if_signed comment q (Operations.is_sig_valid env o u.pub_key)
              (check_object db q pending o) in
          let rest = λ (q : Profile).
            with_author o.author_id q (get_pending_user pending o.author_id)
              (get_user env db o.author_id) (signed_by q) in
          let (not_banned, k) =
            unless_user_banned-matched (is_user_banned env db p o.author_id) rest (rw valid at h) in
          let q = (is_user_banned env db p o.author_id).1 in
          let (u, known, k2) = with_author-matched o.author_id q _ _ (signed_by q) k in
          let (signed, k3) = if_signed-matched comment q _ (check_object db q pending o) k2 in
          (valid, not_banned, (u, known, signed), check_object-matched db q pending o k3)
    ]
