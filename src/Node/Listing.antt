-- ===== src/Node/Listing.antt =====
-- dscuss.go: ListThread, from the database to the view.
use dscuss.Prelude.{
  ℕ, ◌<◌, ◌≡◌, refl, ap, sym, ◌∙◌, subst, Bool, not, ◌||◌, List, Option, none, some, Result, ok,
  err, fatal,
}
use dscuss.Entity.{EntityId, Message, Operation}
use dscuss.Thread.{Node}
use dscuss.Thread.Moderating.{IsPruned}
use dscuss.Env.{Env}
use dscuss.Sqlite.MessageTable.{get_message}
use dscuss.Sqlite.Threads.{get_thread}
use dscuss.Sqlite.Threads.Filling.{Descends, IsThread, get_thread_total}
use dscuss.Owner.Profile.Caches.{IsCoherent}
use dscuss.Owner.View.{moderate_thread}
use dscuss.Owner.View.Moderation.{by_moderator}
use dscuss.Owner.View.Pruning.{IsRecorded, moderate_thread_lem}
use dscuss.Node.{LoginHandle, moderated_thread, list_thread}

-- No message on the way is removed by a moderator of the user, and no author is banned by one.
abbrev pub is_shown :
    LoginHandle → (Message → List Operation) → (Message → List Operation) → Message → Bool
is_shown lh bans removals m =
    not (by_moderator lh.profile (bans m) || by_moderator lh.profile (removals m))

abbrev result_of : Option (Result (Option Node) × LoginHandle) → Result (Option Node)
result_of none = fatal
result_of (some (r, lh)) = r

moderated_thread_total :
    (env : Env) (lh : LoginHandle) (r : Result Node)
    → (x : Result (Option Node) × LoginHandle) × (moderated_thread env lh (some r) ≡ some x)
unfolding moderated_thread
moderated_thread_total env lh (ok t) =
    let p = moderate_thread env lh.storage.db lh.profile t in
    ((p.0, record lh { profile = p.1 }), refl)
moderated_thread_total env lh (err e) = ((err e, lh), refl)
moderated_thread_total env lh fatal = ((fatal, lh), refl)

-- `ListThread` returns. If the database has the thread, what is returned are exactly the nodes of it
-- on whose way from the message asked for no message is removed and no author is banned by a
-- moderator of the user, in their order. A measure falls from each message to its replies and is
-- below the fuel at the message asked for; the caches of the profile agree with its database, and
-- the operations in the database are of the types that they are stored for.
pub list_thread_lem :
    (env : Env) (lh : LoginHandle) (rank : EntityId → ℕ) (fuel : ℕ) (id : EntityId)
    (bans removals : Message → List Operation)
    → Descends env lh.storage.db rank
    → ((m : Message) → get_message env lh.storage.db id ≡ ok m → rank m.id < fuel)
    → IsCoherent lh.profile
    → IsRecorded env lh.storage.db bans removals
    → (x : Result (Option Node) × LoginHandle) × (list_thread env lh fuel id ≡ some x)
      × ((t : Node)
          → get_thread env lh.storage.db fuel id ≡ some (ok t)
          → IsThread env lh.storage.db id t × IsPruned (is_shown lh bans removals) t x.0)
unfolding list_thread moderated_thread
list_thread_lem env lh rank fuel id bans removals d l c r =
    let (q, e, found) = get_thread_total env lh.storage.db rank fuel id d l in
    let (x, f) = moderated_thread_total env lh q in
    let all : list_thread env lh fuel id ≡ some x = ap (moderated_thread env lh) e ∙ f in
    (
      x,
      all,
      λ t g. (
        found t (ap result_or (sym e ∙ g)),
        subst (λ y. IsPruned (is_shown lh bans removals) t y)
            (ap result_of (sym (ap (moderated_thread env lh) g) ∙ all))
            (moderate_thread_lem env lh.storage.db lh.profile t bans removals c r).0,
      ),
    )
  where
    result_or : Option (Result Node) → Result Node
    result_or none = fatal
    result_or (some y) = y
