-- ===== src/Peer/Handshaking/Stored.antt =====
-- p2p/peer/state_handshaking.go: the user is stored when the handshake ends.
use dscuss.Prelude.{
  ℕ, arith, ◌≡◌, refl, ap, ◌∙◌, Bool, true, false, ◌||◌, List, [], ◌∷◌, ◌++◌, any, any-append, ◌==◌,
  ==_refl, if◌then◌else◌, Option, some, Outcome, ok,
}
use dscuss.Entity.{EntityId, User, Entity}
use dscuss.Sqlite.{UserRow, put_user, has_user, insert_or_ignore}
use dscuss.Storage.{Storage, put_entity, put_in_db, notify, notify_observers, send, is_sender}
use dscuss.Peer.Receiving.{World}
use dscuss.Peer.Handshaking.{Own, Introduction, stored_user}

any_after_insert :
    (row : UserRow) (rows : List UserRow)
    → any (λ r. r.id == row.id) (insert_or_ignore (λ r. r.id) row rows) ≡ true
any_after_insert row rows = by_case (any (λ r. r.id == row.id) rows) refl
  where
    by_case :
        (b : Bool)
        → any (λ r. r.id == row.id) rows ≡ b
        → any (λ r. r.id == row.id) (if b then rows else rows ++ row ∷ []) ≡ true
    by_case true e = e
    by_case false e =
        any-append (λ r. r.id == row.id) rows (row ∷ [])
        ∙ ap (λ b. b || ((row.id == row.id) || false)) e
        ∙ ap (λ b. b || false) (==_refl row.id)

send-db : (s : Storage) (o : ℕ) (e : Entity) → (send s o e).db ≡ s.db
unfolding send
send-db s o e = ground arith

notify-db :
    (s : Storage) (e : Entity) (sender : Option ℕ) (os : List ℕ) → (notify s e sender os).db ≡ s.db
unfolding notify
notify-db s e sender [] = refl
notify-db s e sender (o ∷ os) =
    notify-db (if is_sender sender o then s else send s o e) e sender os
    ∙ by_case (is_sender sender o)
  where
    by_case : (b : Bool) → (if b then s else send s o e).db ≡ s.db
    by_case true = refl
    by_case false = send-db s o e

if-has_user :
    (id : EntityId) (b : Bool) (x y : Outcome × World)
    → (b ≡ true → has_user x.1.storage.db id ≡ true)
    → has_user y.1.storage.db id ≡ true
    → has_user (if b then x else y).1.storage.db id ≡ true
if-has_user id true x y p q = p refl
if-has_user id false x y p q = q

pub stored_user-has_user :
    (own : Own) (i : Introduction) (u : User) (w : World)
    → has_user (stored_user own i u w).1.storage.db u.id ≡ true
unfolding stored_user has_user put_entity put_in_db put_user notify_observers
stored_user-has_user own i u w =
    if-has_user u.id (has_user w.storage.db u.id) (ok tt, w) _ (λ e. e)
      (ap (λ d. has_user d u.id)
          (notify-db _ (Entity.user u) (some own.out_entity_chan) w.storage.observers)
        ∙ any_after_insert _ w.storage.db.users)
