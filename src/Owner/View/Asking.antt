-- ===== src/Owner/View/Asking.antt =====
-- What the view leaves as it is: the database of the profile, whose caches alone it may fill.
use dscuss.Prelude.{
  ◌≡◌, refl, ap, ◌∙◌, Bool, true, false, List, [], ◌∷◌, Option, none, some, Result, ok, err, fatal,
  Bool-cases, inl, inr, ◌==◌,
}
use dscuss.Entity.{EntityId, Message, Operation}
use dscuss.Entity.Operations.{type_remove_message, type_ban_user}
use dscuss.Env.{Env}
use dscuss.Sqlite.{EntityDatabase}
use dscuss.Sqlite.ProfileDatabase
use dscuss.Sqlite.OperationTable.{get_operations_on_user, get_operations_on_message}
use dscuss.Thread.{
  msg, Node, node, Children, no_child, child, moderate, moderate_all, ModeratingHandler,
  with_children, with_child,
}
use dscuss.Owner.Profile.{Profile, cached, get_moderators, has_moderator}
use dscuss.Owner.View.{
  find_ban, ban_among, is_user_banned, apply_operations, applied, unless_banned, moderate_message,
  with_first, moderate_messages, handle, moderate_thread,
}

-- Only the caches may differ.
abbrev pub SameDb : Profile → Profile → Type 0
SameDb p q = q.db ≡ p.db

pub cached-SameDb : (p : Profile) (ms : Option (List EntityId)) → SameDb p (cached p ms).1
unfolding ProfileDatabase.get_moderators
cached-SameDb p none = refl
cached-SameDb p (some ms) = refl

pub get_moderators-SameDb : (p : Profile) → SameDb p (get_moderators p).1
unfolding get_moderators
get_moderators-SameDb p = cached-SameDb p p.moderators

has_moderator-SameDb : (p : Profile) (id : EntityId) → SameDb p (has_moderator p id).1
unfolding has_moderator
has_moderator-SameDb p id = elim (Bool-cases (id == p.self_id)) [
  | inl self ↦ rw self refl
  | inr other ↦ rw other (get_moderators-SameDb p)
]

find_ban-SameDb : (p : Profile) (ops : List Operation) → SameDb p (find_ban p ops).1
unfolding find_ban
find_ban-SameDb p [] = refl
find_ban-SameDb p (o ∷ os) =
    let asked = has_moderator-SameDb p o.author_id in
    let rest = find_ban-SameDb (has_moderator p o.author_id).1 os ∙ asked in
    elim (Bool-cases (has_moderator p o.author_id).0) [
      | inl moder ↦ elim (Bool-cases (o.operation_type == type_ban_user)) [
        | inl ban ↦ rw (moder, ban) asked
        | inr other ↦ rw (moder, other) asked
      ]
      | inr other ↦ rw other rest
    ]

apply_operations-SameDb :
    (p : Profile) (m : Message) (ops : List Operation) → SameDb p (apply_operations p m ops).1
unfolding apply_operations
apply_operations-SameDb p m [] = refl
apply_operations-SameDb p m (o ∷ os) =
    let asked = has_moderator-SameDb p o.author_id in
    let rest = apply_operations-SameDb (has_moderator p o.author_id).1 m os ∙ asked in
    elim (Bool-cases (has_moderator p o.author_id).0) [
      | inl moder ↦ elim (Bool-cases (o.operation_type == type_remove_message)) [
        | inl removal ↦ rw (moder, removal) asked
        | inr other ↦ rw (moder, other) asked
      ]
      | inr other ↦ rw other rest
    ]

applied-SameDb :
    (p : Profile) (m : Message) (r : Result (List Operation)) → SameDb p (applied p m r).1
applied-SameDb p m (ok ops) = apply_operations-SameDb p m ops
applied-SameDb p m (err e) = refl
applied-SameDb p m fatal = refl

ban_among-SameDb : (p : Profile) (r : Result (List Operation)) → SameDb p (ban_among p r).1
ban_among-SameDb p (ok ops) = find_ban-SameDb p ops
ban_among-SameDb p (err e) = refl
ban_among-SameDb p fatal = refl

module _ (env : Env) (db : EntityDatabase) where
  unless_banned-SameDb :
      (m : Message) (r : Result Bool × Profile) → SameDb r.1 (unless_banned env db m r).1
  unless_banned-SameDb m (ok true, p) = refl
  unless_banned-SameDb m (ok false, p) = applied-SameDb p m (get_operations_on_message env db m.id)
  unless_banned-SameDb m (err e, p) = refl
  unless_banned-SameDb m (fatal, p) = refl

  moderate_message-SameDb : (p : Profile) (m : Message) → SameDb p (moderate_message env db p m).1
  unfolding moderate_message is_user_banned
  moderate_message-SameDb p m =
      unless_banned-SameDb m (is_user_banned env db p m.author_id)
      ∙ ban_among-SameDb p (get_operations_on_user env db m.author_id)

  with_first-SameDb :
      (m : Option Message) (r : Result (List Message) × Profile) → (with_first m r).1 ≡ r.1
  with_first-SameDb m (ok ms, p) = refl
  with_first-SameDb m (err e, p) = refl
  with_first-SameDb m (fatal, p) = refl

  pub moderate_messages-SameDb :
      (p : Profile) (ms : List Message) → SameDb p (moderate_messages env db p ms).1
  unfolding moderate_messages
  moderate_messages-SameDb p [] = refl
  moderate_messages-SameDb p (m ∷ brd) =
      go (moderate_message env db p m) (moderate_message-SameDb p m)
        (λ q. moderate_messages-SameDb q brd)
    where
      go :
          (r : Result (Option Message) × Profile)
          → SameDb p r.1
          → ((q : Profile) → SameDb q (moderate_messages env db q brd).1)
          → SameDb p
              (elim r.0 as (λ x. Result (List Message) × Profile) [
                | ok mm ↦ with_first mm (moderate_messages env db r.1 brd)
                | err e ↦ (err e, r.1)
                | fatal ↦ (fatal, r.1)
              ]).1
      go (ok mm, q) same ih =
          ap (λ p'. p'.db) (with_first-SameDb mm (moderate_messages env db q brd)) ∙ ih q ∙ same
      go (err e, q) same ih = same
      go (fatal, q) same ih = same

with_children-db : (m : Message) (r : Result Children × Profile) → (with_children m r).1 ≡ r.1
with_children-db m (ok cs, p) = refl
with_children-db m (err e, p) = refl
with_children-db m (fatal, p) = refl

with_child-db : (c : Option Node) (r : Result Children × Profile) → (with_child c r).1 ≡ r.1
with_child-db none r = refl
with_child-db (some c) (ok cs, p) = refl
with_child-db (some c) (err e, p) = refl
with_child-db (some c) (fatal, p) = refl

module _ (h : ModeratingHandler Profile)
    (keeps : (n : Node) (p : Profile) → SameDb p (h n p).1) where
  visit_node :
      (m : Message) (cs : Children) (p : Profile) (r : Result (Option Message) × Profile)
      → SameDb p r.1
      → ((q : Profile) → SameDb q (moderate_all h cs q).1)
      → SameDb p
          (elim r.0 as (λ x. Result (Option Node) × Profile) [
            | ok o ↦ elim o as (λ x. Result (Option Node) × Profile) [
              | none ↦ (ok none, r.1)
              | some m' ↦ with_children m' (moderate_all h cs r.1)
            ]
            | err e ↦ (err e, r.1)
            | fatal ↦ (fatal, r.1)
          ]).1
  visit_node m cs p (ok none, q) same ih = same
  visit_node m cs p (ok (some m'), q) same ih =
      ap (λ p'. p'.db) (with_children-db m' (moderate_all h cs q)) ∙ ih q ∙ same
  visit_node m cs p (err e, q) same ih = same
  visit_node m cs p (fatal, q) same ih = same

  visit_all :
      (cs : Children) (p : Profile) (r : Result (Option Node) × Profile)
      → SameDb p r.1
      → ((q : Profile) → SameDb q (moderate_all h cs q).1)
      → SameDb p
          (elim r.0 as (λ x. Result Children × Profile) [
            | ok o ↦ with_child o (moderate_all h cs r.1)
            | err e ↦ (err e, r.1)
            | fatal ↦ (fatal, r.1)
          ]).1
  visit_all cs p (ok o, q) same ih =
      ap (λ p'. p'.db) (with_child-db o (moderate_all h cs q)) ∙ ih q ∙ same
  visit_all cs p (err e, q) same ih = same
  visit_all cs p (fatal, q) same ih = same

  mutual
    unfolding moderate moderate_all

    moderate-SameDb : (n : Node) (p : Profile) → SameDb p (moderate h n p).1
    moderate-SameDb (node m cs) p =
        visit_node m cs p (h (node m cs) p) (keeps (node m cs) p) (λ q. moderate_all-SameDb cs q)

    moderate_all-SameDb : (cs : Children) (p : Profile) → SameDb p (moderate_all h cs p).1
    moderate_all-SameDb no_child p = refl
    moderate_all-SameDb (child c cs) p =
        visit_all cs p (moderate h c p) (moderate-SameDb c p) (λ q. moderate_all-SameDb cs q)

pub moderate_thread-SameDb :
    (env : Env) (db : EntityDatabase) (p : Profile) (t : Node)
    → SameDb p (moderate_thread env db p t).1
unfolding moderate_thread
moderate_thread-SameDb env db p t =
    moderate-SameDb (handle env db) (λ n q. moderate_message-SameDb env db q (msg n)) t p
