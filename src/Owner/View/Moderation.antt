-- ===== src/Owner/View/Moderation.antt =====
-- owner/view.go: what the view hides.
use dscuss.Prelude.{
  ◌≡◌, refl, ap, ◌∙◌, Bool, true, ◌||◌, List, [], ◌∷◌, any, all, ◌==◌, if◌then◌else◌, none, some,
  arith, Bool-cases, inl, inr, ok,
}
use dscuss.Entity.{EntityId, Message, Operation}
use dscuss.Entity.Operations.{type_remove_message, type_ban_user}
use dscuss.Env.{Env}
use dscuss.Sqlite.{EntityDatabase}
use dscuss.Sqlite.OperationTable.{get_operations_on_user, get_operations_on_message}
use dscuss.Owner.Profile.{Profile, has_moderator}
use dscuss.Owner.Profile.Caches.{
  IsCoherent, is_moderator, IsAsked, IsAsked-refl, IsAsked-trans, is_moderator-asked,
  has_moderator_lem,
}
use dscuss.Owner.View.{find_ban, is_user_banned, apply_operations, unless_banned, moderate_message}

any_congr {ℓ} :
    {A : Type ℓ} (p q : A → Bool) → ((a : A) → p a ≡ q a) → (l : List A) → any p l ≡ any q l
any_congr p q h [] = refl
any_congr p q h (a ∷ l) = let rest = any_congr p q h l in let here = h a in ground arith

-- Whether a moderator is the author of one of the operations.
abbrev pub by_moderator : Profile → List Operation → Bool
by_moderator p ops = any (λ o. is_moderator p o.author_id) ops

pub by_moderator-asked :
    (p q : Profile) (ops : List Operation) → IsAsked p q → by_moderator q ops ≡ by_moderator p ops
by_moderator-asked p q ops a = any_congr _ _ (λ o. is_moderator-asked p q a o.author_id) ops

find_ban_lem :
    (p : Profile) (ops : List Operation)
    → IsCoherent p
    → all (λ o. o.operation_type == type_ban_user) ops ≡ true
    → ((find_ban p ops).0 ≡ ok (by_moderator p ops)) × IsAsked p (find_ban p ops).1
unfolding find_ban
find_ban_lem p [] c h = (refl, IsAsked-refl p c)
find_ban_lem p (o ∷ os) c h =
    let (answer, asked) = has_moderator_lem p c o.author_id in
    let q = (has_moderator p o.author_id).1 in
    let (banned, later) = find_ban_lem q os asked.coherent (ground arith) in
    let t : o.operation_type == type_ban_user ≡ true = ground arith in
    elim (Bool-cases (is_moderator p o.author_id)) [
      | inl moder ↦ rw (answer, moder, t) (refl, asked)
      | inr other ↦
          rw (answer, other)
            (banned ∙ ap ok (by_moderator-asked p q os asked), IsAsked-trans p q _ asked later)
    ]

apply_operations_lem :
    (p : Profile) (m : Message) (ops : List Operation)
    → IsCoherent p
    → all (λ o. o.operation_type == type_remove_message) ops ≡ true
    → ((apply_operations p m ops).0 ≡ ok (if by_moderator p ops then none else some m))
      × IsAsked p (apply_operations p m ops).1
unfolding apply_operations
apply_operations_lem p m [] c h = (refl, IsAsked-refl p c)
apply_operations_lem p m (o ∷ os) c h =
    let (answer, asked) = has_moderator_lem p c o.author_id in
    let q = (has_moderator p o.author_id).1 in
    let (removed, later) = apply_operations_lem q m os asked.coherent (ground arith) in
    let t : o.operation_type == type_remove_message ≡ true = ground arith in
    elim (Bool-cases (is_moderator p o.author_id)) [
      | inl moder ↦ rw (answer, moder, t) (refl, asked)
      | inr other ↦
          rw (answer, other)
            (
              removed ∙ ap (λ b. ok (if b then none else some m)) (by_moderator-asked p q os asked),
              IsAsked-trans p q _ asked later,
            )
    ]

-- `IsUserBanned` tells whether a moderator has banned the user, where the caches of the profile agree
-- with its database and the operations on the user are bans; the caches agree afterwards too.
pub is_user_banned_lem :
    (env : Env) (db : EntityDatabase) (p : Profile) (uid : EntityId) (ops : List Operation)
    → IsCoherent p
    → get_operations_on_user env db uid ≡ ok ops
    → all (λ o. o.operation_type == type_ban_user) ops ≡ true
    → ((is_user_banned env db p uid).0 ≡ ok (by_moderator p ops))
      × IsAsked p (is_user_banned env db p uid).1
unfolding is_user_banned
is_user_banned_lem env db p uid ops c e h = rw e (find_ban_lem p ops c h)

-- `ModerateMessage` hides a message exactly if a moderator has banned its author or removed it, where
-- the caches of the profile agree with its database, the operations on the author are bans and
-- those on the message are removals.
pub moderate_message_lem :
    (env : Env) (db : EntityDatabase) (p : Profile) (m : Message) (bans removals : List Operation)
    → IsCoherent p
    → get_operations_on_user env db m.author_id ≡ ok bans
    → all (λ o. o.operation_type == type_ban_user) bans ≡ true
    → get_operations_on_message env db m.id ≡ ok removals
    → all (λ o. o.operation_type == type_remove_message) removals ≡ true
    → ((moderate_message env db p m).0
        ≡ ok (if by_moderator p bans || by_moderator p removals then none else some m))
      × IsAsked p (moderate_message env db p m).1
unfolding moderate_message
moderate_message_lem env db p m bans removals c e h f k =
    let (banned, asked) = is_user_banned_lem env db p m.author_id bans c e h in
    let q = (is_user_banned env db p m.author_id).1 in
    let (removed, later) = apply_operations_lem q m removals asked.coherent k in
    elim (Bool-cases (by_moderator p bans)) [
      | inl ban ↦
          rw (ap (λ r. unless_banned env db m (r, q)) (banned ∙ ap ok ban)) (rw ban refl, asked)
      | inr other ↦
          rw (ap (λ r. unless_banned env db m (r, q)) (banned ∙ ap ok other), f, other)
            (
              removed
                  ∙ ap (λ b. ok (if b then none else some m))
                      (by_moderator-asked p q removals asked),
              IsAsked-trans p q _ asked later,
            )
    ]
