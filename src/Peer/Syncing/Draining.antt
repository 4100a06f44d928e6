-- ===== src/Peer/Syncing/Draining.antt =====
-- p2p/peer/state_active_syncing.go: the whole of the active part.
use dscuss.Prelude.{
  all, ◌≤◌, ℕ, zero, suc, ◌+◌, ◌≡◌, ap, ◌∙◌, refl, arith, Bool, true, false, List, [], ◌∷◌, ◌++◌,
  length, if◌then◌else◌, Option, none, some, Outcome, ok, err, fatal,
}
use dscuss.Entity.{Time, StoredMessage, StoredOperation, Entity}
use dscuss.Packet.{Payload}
use dscuss.Env.{Env}
use dscuss.Sqlite.{EntityDatabase, is_stored_after}
use dscuss.Sqlite.Since.{get_messages_stored_after_late, get_operations_stored_after_late}
use dscuss.Sqlite.MessageQueries.{get_messages_stored_after}
use dscuss.Sqlite.OperationTable.{get_operations_stored_after}
use dscuss.Peer.Receiving.{Session, World}
use dscuss.Peer.Receiving.Performing.{write}
use dscuss.Peer.Interest.{Known}
use dscuss.Peer.Syncing.{
  max_sync_number_of_messages, max_sync_number_of_operations, ActiveSync, sending, active_syncing,
  passive_syncing, idle, Performed, switch, get_start_time, SyncTurn, write_then, sync_operation,
  operations_left, sync_message, messages_left, sync_active,
}

-- What is handed to the sending state, and how the call of `perform` after that ends; none stands
-- for a synchronization that still runs.
abbrev pub Sent : Type 0
Sent = List (Entity × Time) × Option Performed

-- A sending state whose next one is the active part again comes back to it.
abbrev pub and_then : Performed → (ActiveSync → Sent) → Sent
and_then (switch (sending e stored (active_syncing a)) w) rest =
    let (es, r) = rest a in ((e, stored) ∷ es, r)
and_then p rest = ([], some p)

-- At most `fuel` calls of the active `perform`, where each sending state comes back; the i-th call
-- finds the i-th world.
unfoldable pub sync_all :
    Env → Session → Known → Bool → (ℕ → World × SyncTurn) → ℕ → ℕ → ActiveSync → Sent
unfolding sync_active
sync_all env s k b turns zero i a = ([], none)
sync_all env s k b turns (suc fuel) i a =
    and_then (sync_active env s k b a (turns i).1 (turns i).0)
      (λ a'. sync_all env s k b turns fuel (suc i) a')

abbrev pub of_messages : List StoredMessage → List (Entity × Time)
of_messages [] = []
of_messages (m ∷ ms) = (Entity.message m.m, m.stored) ∷ of_messages ms

abbrev pub of_operations : List StoredOperation → List (Entity × Time)
of_operations [] = []
of_operations (o ∷ os) = (Entity.operation o.o, o.stored) ∷ of_operations os

zero_add : (n : ℕ) → 0 + n ≡ n
zero_add n = omega arith

add_suc : (m n : ℕ) → suc m + n ≡ suc (m + n)
add_suc m n = omega arith

and_then-write_then :
    (o : Outcome) (b : Bool) (w w' : World) (rest : ActiveSync → Sent)
    → and_then (write_then o (if b then passive_syncing else idle) w w') rest
      ≡ ([], some (write_then o (if b then passive_syncing else idle) w w'))
and_then-write_then (ok u) true w w' rest = refl
and_then-write_then (ok u) false w w' rest = refl
and_then-write_then (err e) b w w' rest = refl
and_then-write_then fatal b w w' rest = refl

module _ (env : Env) (s : Session) (k : Known) (b : Bool) (turns : ℕ → World × SyncTurn)
    (start : Time) where
  abbrev end_at : ℕ → Performed
  end_at i =
      let (w, t) = turns i in
      write_then t.write (if b then passive_syncing else idle) w (write env s w Payload.done t.sent)

  abbrev in_progress : Option (List StoredMessage) → Option (List StoredOperation) → ActiveSync
  in_progress mm oo = record { messages = mm; operations = oo; start_time = some start }

  abbrev next : ℕ → ℕ → ActiveSync → Sent
  next fuel i a = sync_all env s k b turns fuel (suc i) a

  sync_operations :
      (os : List StoredOperation) (i : ℕ) (mm : Option (List StoredMessage))
      (oo : Option (List StoredOperation))
      → ((j : ℕ) → messages_left env (turns j).0 start (in_progress mm oo) ≡ ok [])
      → ((j : ℕ) → operations_left env (turns j).0 start (in_progress mm oo) ≡ ok os)
      → sync_all env s k b turns (suc (length os)) i (in_progress mm oo)
        ≡ (of_operations os, some (end_at (i + length os)))
  unfolding sync_all sync_active
  sync_operations [] i mm oo e f =
      ap
        (λ r.
          and_then (sync_message env s b (turns i).1 start (in_progress mm oo) (turns i).0 r)
            (next 0 i))
        (e i)
      ∙ ap
          (λ r.
            and_then (sync_operation env s b (turns i).1 (in_progress mm oo) (turns i).0 r)
              (next 0 i))
          (f i)
      ∙ and_then-write_then (turns i).1.write b (turns i).0 _ (next 0 i)
      ∙ ap (λ n. ([], some (end_at n))) (omega arith)
  sync_operations (o ∷ os) i mm oo e f =
      ap
        (λ r.
          and_then (sync_message env s b (turns i).1 start (in_progress mm oo) (turns i).0 r)
            (next (suc (length os)) i))
        (e i)
      ∙ ap
          (λ r.
            and_then (sync_operation env s b (turns i).1 (in_progress mm oo) (turns i).0 r)
              (next (suc (length os)) i))
          (f i)
      ∙ ap (λ x. ((Entity.operation o.o, o.stored) ∷ x.0, x.1))
          (sync_operations os (suc i) mm (some os) e (λ j. refl))
      ∙ ap (λ n. (of_operations (o ∷ os), some (end_at n))) (omega arith)

  sync_messages :
      (ms : List StoredMessage) (os : List StoredOperation) (i : ℕ)
      (mm : Option (List StoredMessage))
      → ((j : ℕ) → messages_left env (turns j).0 start (in_progress mm none) ≡ ok ms)
      → ((j : ℕ) → operations_left env (turns j).0 start (in_progress mm none) ≡ ok os)
      → sync_all env s k b turns (suc (length ms + length os)) i (in_progress mm none)
        ≡ (of_messages ms ++ of_operations os, some (end_at (i + (length ms + length os))))
  unfolding sync_all sync_active
  sync_messages [] os i mm e f =
      ap (λ n. sync_all env s k b turns (suc n) i (in_progress mm none)) (omega arith)
      ∙ sync_operations os i mm none e f
      ∙ ap (λ n. (of_operations os, some (end_at n))) (omega arith)
  sync_messages (m ∷ ms) os i mm e f =
      ap (λ n. sync_all env s k b turns (suc n) i (in_progress mm none))
        (add_suc (length ms) (length os))
      ∙ ap
          (λ r.
            and_then (sync_message env s b (turns i).1 start (in_progress mm none) (turns i).0 r)
              (next (suc (length ms + length os)) i))
          (e i)
      ∙ ap (λ x. ((Entity.message m.m, m.stored) ∷ x.0, x.1))
          (sync_messages ms os (suc i) (some ms) (λ j. refl) f)
      ∙ ap (λ n. (of_messages (m ∷ ms) ++ of_operations os, some (end_at n))) (omega arith)

-- While the database does not change, the active part of the synchronization hands over the messages
-- that the query for messages stored after the start time returns, then the operations that the
-- query for operations returns; they come in the order of the queries and each once. Then it writes
-- that it is done: it takes one call of `perform` more than there are entities, and goes on to the
-- passive part or to the idle state, if the write succeeds. All of these entities were stored no
-- earlier than the start time, as the texts of the times compare, and they are not more than the
-- limit of each query.
pub sync_all-found :
    (env : Env) (s : Session) (k : Known) (b : Bool) (turns : ℕ → World × SyncTurn)
    (db : EntityDatabase) (ms : List StoredMessage) (os : List StoredOperation)
    → ((j : ℕ) → (turns j).0.storage.db ≡ db)
    → get_messages_stored_after env db
        (get_start_time k (turns 0).1.now)
        max_sync_number_of_messages
      ≡ ok ms
    → get_operations_stored_after env db
        (get_start_time k (turns 0).1.now)
        max_sync_number_of_operations
      ≡ ok os
    → (turns (length ms + length os)).1.write ≡ ok tt
    → (sync_all env s k b turns
          (suc (length ms + length os))
          0
          (record { messages = none; operations = none; start_time = none })
        ≡ (
          of_messages ms ++ of_operations os,
          some (
              switch (if b then passive_syncing else idle) (
                write env s
                  (turns (length ms + length os)).0
                  Payload.done
                  (turns (length ms + length os)).1.sent)),
        ))
      × (all (λ m. is_stored_after env (get_start_time k (turns 0).1.now) m.stored) ms ≡ true)
      × (length ms ≤ max_sync_number_of_messages)
      × (all (λ o. is_stored_after env (get_start_time k (turns 0).1.now) o.stored) os ≡ true)
      × (length os ≤ max_sync_number_of_operations)
unfolding sync_all sync_active
sync_all-found env s k b turns db ms os d m o v =
    let start = get_start_time k (turns 0).1.now in
    let late_messages =
      get_messages_stored_after_late env db start max_sync_number_of_messages ms m in
    let late_operations =
      get_operations_stored_after_late env db start max_sync_number_of_operations os o in
    (
      sync_messages env s k b turns (get_start_time k (turns 0).1.now) ms os 0 none
            (λ j.
              ap
                (λ x.
                  get_messages_stored_after env x (get_start_time k (turns 0).1.now)
                    max_sync_number_of_messages)
                (d j)
              ∙ m)
            (λ j.
              ap
                (λ x.
                  get_operations_stored_after env x (get_start_time k (turns 0).1.now)
                    max_sync_number_of_operations)
                (d j)
              ∙ o)
          ∙ ap
              (λ n. (
                of_messages ms ++ of_operations os,
                some (end_at env s k b turns (get_start_time k (turns 0).1.now) n),
              ))
              (zero_add (length ms + length os))
          ∙ ap
              (λ r. (
                of_messages ms ++ of_operations os,
                some (
                    write_then r (if b then passive_syncing else idle)
                      (turns (length ms + length os)).0
                      (write env s (turns (length ms + length os)).0 Payload.done
                        (turns (length ms + length os)).1.sent)),
              ))
              v,
      late_messages.0,
      late_messages.1,
      late_operations.0,
      late_operations.1,
    )
