-- ===== src/Owner/View/Pruning.antt =====
-- owner/view.go: ModerateThread.
use dscuss.Prelude.{
  ◌≡◌, refl, ap, ◌∙◌, Bool, true, false, not, ◌||◌, if◌then◌else◌, all, List, ◌==◌, none, some, ok,
}
use dscuss.Entity.{Message, Operation}
use dscuss.Entity.Operations.{type_remove_message, type_ban_user}
use dscuss.Thread.{Node, msg}
use dscuss.Thread.Moderating.{IsPruned, moderate-IsPruned}
use dscuss.Env.{Env}
use dscuss.Sqlite.{EntityDatabase}
use dscuss.Sqlite.OperationTable.{get_operations_on_user, get_operations_on_message}
use dscuss.Owner.Profile.{Profile}
use dscuss.Owner.Profile.Caches.{IsCoherent, IsAsked, IsAsked-refl, IsAsked-trans}
use dscuss.Owner.View.{handle, moderate_thread}
use dscuss.Owner.View.Moderation.{by_moderator, by_moderator-asked, moderate_message_lem}

-- The operations that the database has on the author and on the message itself, each of the type
-- that it is stored for.
pub record IsRecorded (env : Env) (db : EntityDatabase) (bans removals : Message → List Operation)
    : Type 0 where
  pub on_author : (m : Message) → get_operations_on_user env db m.author_id ≡ ok (bans m)
  pub are_bans : (m : Message) → all (λ o. o.operation_type == type_ban_user) (bans m) ≡ true
  pub on_message : (m : Message) → get_operations_on_message env db m.id ≡ ok (removals m)
  pub are_removals :
      (m : Message) → all (λ o. o.operation_type == type_remove_message) (removals m) ≡ true

if_not : {A : Type 0} (b : Bool) (x y : A) → (if b then x else y) ≡ (if not b then y else x)
if_not true x y = refl
if_not false x y = refl

-- `ModerateThread` leaves exactly the nodes on whose way from the root no message is removed by a
-- moderator and no author is banned by one, in their order, where the caches of the profile agree
-- with its database and the operations in the database are of the types that they are stored for.
pub moderate_thread_lem :
    (env : Env) (db : EntityDatabase) (p : Profile) (t : Node)
    (bans removals : Message → List Operation)
    → IsCoherent p
    → IsRecorded env db bans removals
    → IsPruned
        (λ m. not (by_moderator p (bans m) || by_moderator p (removals m)))
        t
        (moderate_thread env db p t).0
      × IsAsked p (moderate_thread env db p t).1
unfolding moderate_thread
moderate_thread_lem env db p t bans removals c r =
    moderate-IsPruned (handle env db)
      (λ m. not (by_moderator p (bans m) || by_moderator p (removals m))) (IsAsked p)
      (λ n q a.
        let m = msg n in
        let (answer, asked) =
          moderate_message_lem env db q m (bans m) (removals m) a.coherent (r.on_author m)
            (r.are_bans m) (r.on_message m) (r.are_removals m) in
        (
          answer
              ∙ ap (λ b. ok (if b || by_moderator q (removals m) then none else some m))
                  (by_moderator-asked p q (bans m) a)
              ∙ ap (λ b. ok (if by_moderator p (bans m) || b then none else some m))
                  (by_moderator-asked p q (removals m) a)
              ∙ ap ok
                  (if_not (by_moderator p (bans m) || by_moderator p (removals m)) none (some m)),
          IsAsked-trans p q _ a asked,
        ))
      t p (IsAsked-refl p c)
