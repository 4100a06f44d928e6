-- ===== src/Sqlite/Since.antt =====
-- sqlite/entity_database.go: GetMessagesStoredAfter and GetOperationsStoredAfter, with their limits.
use dscuss.Prelude.{
  ℕ, zero, suc, ◌≤◌, ◌≡◌, refl, ap, sym, ◌∙◌, subst, arith, Bool, true, false, all, take, select,
  length, List, [], ◌∷◌, Result, ok, err, fatal, ◌>>=◌, if◌then◌else◌, ltb,
}
use dscuss.Entity.{Time, StoredMessage, StoredOperation}
use dscuss.Env.{Env}
use dscuss.Sqlite.{EntityDatabase, MessageRow, OperationRow, is_stored_after, text_less}
use dscuss.Sqlite.MessageQueries.{
  insert_by_time, order_by_time, scan_stored_message_rows, get_messages_stored_after,
}
use dscuss.Sqlite.OperationTable.{
  insert_by_id, group_by_id, scan_stored_operation_rows, get_operations_stored_after,
}

module _ {A : Type 0} (p : A → Bool) where
  all-take : (n : ℕ) (l : List A) → all p l ≡ true → all p (take n l) ≡ true
  all-take zero l h = refl
  all-take (suc n) [] h = refl
  all-take (suc n) (x ∷ l) h = ground (arith, all-take n l)

  all-select : (l : List A) → all p (select p l) ≡ true
  all-select [] = refl
  all-select (x ∷ l) = ground (arith, all-select l)

  all-if :
      (b : Bool) (k l : List A)
      → all p k ≡ true
      → all p l ≡ true
      → all p (if b then k else l) ≡ true
  all-if true k l h i = h
  all-if false k l h i = i

length-take : {A : Type 0} (n : ℕ) (l : List A) → length (take n l) ≤ n
length-take zero l = omega arith
length-take (suc n) [] = omega arith
length-take (suc n) (x ∷ l) = omega (arith, length-take n l)

abbrev list_or : {A : Type 0} → List A → Result (List A) → List A
list_or d (ok l) = l
list_or d (err e) = d
list_or d fatal = d

scanned :
    {A B : Type 0} (f : A → B) (x : Result A) (y : Result (List B)) (l : List B)
    → (x >>= (λ m. y >>= (λ ms. ok (f m ∷ ms)))) ≡ ok l
    → (m : A) × (ms : List B) × (y ≡ ok ms) × (f m ∷ ms ≡ l)
scanned f (ok m) (ok ms) l h = (m, ms, refl, ap (list_or l) h)
scanned f (ok m) (err e) l h = absurd (ground arith)
scanned f (ok m) fatal l h = absurd (ground arith)
scanned f (err e) y l h = absurd (ground arith)
scanned f fatal y l h = absurd (ground arith)

module _ (env : Env) (db : EntityDatabase) (start : Time) where
  abbrev late : Time → Bool
  unfolding is_stored_after
  late t = is_stored_after env start t

  all-insert_by_time :
      (r : MessageRow) (l : List MessageRow)
      → late r.time_stored ≡ true
      → all (λ r. late r.time_stored) l ≡ true
      → all (λ r. late r.time_stored) (insert_by_time env r l) ≡ true
  unfolding insert_by_time
  all-insert_by_time r [] h a = ground arith
  all-insert_by_time r (s ∷ l) h a =
      let rest = all-insert_by_time r l h (ground arith) in
      all-if (λ (r : MessageRow). late r.time_stored)
        (text_less (env.timestamp_text r.id r.timestamp) (env.timestamp_text s.id s.timestamp))
        (r ∷ s ∷ l) (s ∷ insert_by_time env r l) (ground arith) (ground arith)

  all-order_by_time :
      (l acc : List MessageRow)
      → all (λ r. late r.time_stored) l ≡ true
      → all (λ r. late r.time_stored) acc ≡ true
      → all (λ r. late r.time_stored) (order_by_time env acc l) ≡ true
  unfolding order_by_time
  all-order_by_time [] acc h a = a
  all-order_by_time (r ∷ l) acc h a =
      all-order_by_time l (insert_by_time env r acc) (ground arith)
        (all-insert_by_time r acc (ground arith) a)

  scan-messages :
      (rows : List MessageRow) (ms : List StoredMessage)
      → scan_stored_message_rows env db rows ≡ ok ms
      → all (λ r. late r.time_stored) rows ≡ true
      → (all (λ m. late m.stored) ms ≡ true) × (length ms ≡ length rows)
  unfolding scan_stored_message_rows
  scan-messages [] ms h a =
      let e = ap (list_or ms) h in
      (subst (λ l. all (λ m. late m.stored) l ≡ true) e refl, ap length (sym e))
  scan-messages (r ∷ rows) ms h a =
      let (m, l, e, f) =
        scanned (λ m. let s : StoredMessage = record { m = m; stored = r.time_stored } in s) _ _ ms
          h in
      let (g, k) = scan-messages rows l e (ground arith) in
      (
        subst (λ l. all (λ m. late m.stored) l ≡ true) f (ground arith),
        ap length (sym f) ∙ ap suc k,
      )

  -- What the query for messages returns was stored after the start, by the texts of the times, and
  -- is not more than the limit.
  pub get_messages_stored_after_late :
      (limit : ℕ) (ms : List StoredMessage)
      → get_messages_stored_after env db start limit ≡ ok ms
      → (all (λ m. is_stored_after env start m.stored) ms ≡ true) × (length ms ≤ limit)
  unfolding get_messages_stored_after
  get_messages_stored_after_late limit ms h =
      let rows = order_by_time env [] (select (λ r. late r.time_stored) db.messages) in
      let (a, e) = scan-messages (take limit rows) ms h (
        all-take (λ r. late r.time_stored) limit rows
          (all-order_by_time (select (λ r. late r.time_stored) db.messages) []
            (all-select (λ r. late r.time_stored) db.messages) refl)) in
      (a, subst (λ n. n ≤ limit) (sym e) (length-take limit rows))

  all-insert_by_id :
      (r : OperationRow) (l : List OperationRow)
      → late r.time_stored ≡ true
      → all (λ r. late r.time_stored) l ≡ true
      → all (λ r. late r.time_stored) (insert_by_id r l) ≡ true
  all-insert_by_id r [] h a = ground arith
  all-insert_by_id r (s ∷ l) h a =
      let rest = all-insert_by_id r l h (ground arith) in
      all-if (λ r. late r.time_stored) (ltb r.id s.id) _ _ (ground arith) (ground arith)

  all-group_by_id :
      (l acc : List OperationRow)
      → all (λ r. late r.time_stored) l ≡ true
      → all (λ r. late r.time_stored) acc ≡ true
      → all (λ r. late r.time_stored) (group_by_id acc l) ≡ true
  unfolding group_by_id
  all-group_by_id [] acc h a = a
  all-group_by_id (r ∷ l) acc h a =
      all-group_by_id l (insert_by_id r acc) (ground arith)
        (all-insert_by_id r acc (ground arith) a)

  scan-operations :
      (rows : List OperationRow) (os : List StoredOperation)
      → scan_stored_operation_rows env db rows ≡ ok os
      → all (λ r. late r.time_stored) rows ≡ true
      → (all (λ o. late o.stored) os ≡ true) × (length os ≡ length rows)
  unfolding scan_stored_operation_rows
  scan-operations [] os h a =
      let e = ap (list_or os) h in
      (subst (λ l. all (λ m. late m.stored) l ≡ true) e refl, ap length (sym e))
  scan-operations (r ∷ rows) os h a =
      let (o, l, e, f) =
        scanned (λ o. let s : StoredOperation = record { o = o; stored = r.time_stored } in s) _ _
          os h in
      let (g, k) = scan-operations rows l e (ground arith) in
      (
        subst (λ l. all (λ m. late m.stored) l ≡ true) f (ground arith),
        ap length (sym f) ∙ ap suc k,
      )

  -- What the query for operations returns, likewise.
  pub get_operations_stored_after_late :
      (limit : ℕ) (os : List StoredOperation)
      → get_operations_stored_after env db start limit ≡ ok os
      → (all (λ o. is_stored_after env start o.stored) os ≡ true) × (length os ≤ limit)
  unfolding get_operations_stored_after
  get_operations_stored_after_late limit os h =
      let rows = group_by_id [] (select (λ r. late r.time_stored) db.operations) in
      let (a, e) = scan-operations (take limit rows) os h (
        all-take (λ r. late r.time_stored) limit rows
          (all-group_by_id (select (λ r. late r.time_stored) db.operations) []
            (all-select (λ r. late r.time_stored) db.operations) refl)) in
      (a, subst (λ n. n ≤ limit) (sym e) (length-take limit rows))
