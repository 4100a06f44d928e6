-- ===== src/Storage/Notifying.antt =====
-- storage/storage.go: the observers, and what they receive.
use dscuss.Prelude.{
  ℕ, ◌≡◌, ◌≤◌, ◌+◌, ◌||◌, refl, ap, sym, ◌∙◌, Bool, true, false, not, ◌&&◌, any, length, List, [],
  ◌∷◌, ◌++◌, ltb, ◌==◌, if◌then◌else◌, Option, arith, Result, Outcome, ok, err, fatal,
  length-append, ==_refl, ==_iff, Bool-cases, inl, inr,
}
use dscuss.Entity.{Time, Entity}
use dscuss.Sqlite.{EntityDatabase}
use dscuss.Storage.{
  Storage, attach_observer, detach_observer, remove_first, is_sender, send, notify,
  notify_observers, put_in_db, notify_if_put, put_entity,
}

abbrev pub is_member : ℕ → List ℕ → Bool
is_member c os = any (λ o. o == c) os

-- No channel is attached twice.
abbrev pub distinct : List ℕ → Bool
distinct [] = true
distinct (o ∷ os) = not (is_member o os) && distinct os

-- The buffer after an attempt to send the entity: a full one stays as it is.
abbrev pub offer : Entity → ℕ → List Entity → List Entity
offer e capacity q = if ltb (length q) capacity then q ++ e ∷ [] else q

abbrev pub receives : List ℕ → Option ℕ → ℕ → Bool
receives os sender c = is_member c os && not (is_sender sender c)

send-queue :
    (s : Storage) (e : Entity) (o c : ℕ)
    → (send s o e).queue c ≡ (if c == o then offer e (s.capacity c) (s.queue c) else s.queue c)
unfolding send
send-queue s e o c = elim (Bool-cases (c == o)) [
  | inl same ↦ let q = (==_iff c o).0 same in ground arith
  | inr other ↦ ground arith
]

send-capacity : (s : Storage) (e : Entity) (o : ℕ) → (send s o e).capacity ≡ s.capacity
unfolding send
send-capacity s e o = ground arith

step : Storage → Entity → Option ℕ → ℕ → Storage
step s e sender o = if is_sender sender o then s else send s o e

step-capacity :
    (s : Storage) (e : Entity) (sender : Option ℕ) (o : ℕ)
    → (step s e sender o).capacity ≡ s.capacity
unfolding step
step-capacity s e sender o = ground (arith, send-capacity s e o)

send-queue_self :
    (s : Storage) (e : Entity) (o : ℕ) → (send s o e).queue o ≡ offer e (s.capacity o) (s.queue o)
send-queue_self s e o = send-queue s e o o ∙ rw ==_refl refl

step-queue_self :
    (s : Storage) (e : Entity) (sender : Option ℕ) (o : ℕ)
    → (step s e sender o).queue o
      ≡ (if not (is_sender sender o) then offer e (s.capacity o) (s.queue o) else s.queue o)
unfolding step
step-queue_self s e sender o = elim (Bool-cases (is_sender sender o)) [
  | inl own ↦ rw own refl
  | inr other ↦ rw other (send-queue_self s e o)
]

step-queue_other :
    (s : Storage) (e : Entity) (sender : Option ℕ) (o c : ℕ)
    → c == o ≡ false
    → (step s e sender o).queue c ≡ s.queue c
unfolding step
step-queue_other s e sender o c h = elim (Bool-cases (is_sender sender o)) [
  | inl own ↦ rw own refl
  | inr other ↦ rw other (send-queue s e o c ∙ rw h refl)
]

notify-absent :
    (os : List ℕ) (s : Storage) (e : Entity) (sender : Option ℕ) (c : ℕ)
    → is_member c os ≡ false
    → (notify s e sender os).queue c ≡ s.queue c
unfolding notify step
notify-absent [] s e sender c h = refl
notify-absent (o ∷ os) s e sender c h =
    notify-absent os (step s e sender o) e sender c (ground arith)
    ∙ step-queue_other s e sender o c (ground arith)

-- What a list of observers without repetition does to the buffer of a channel.
notify-queue :
    (os : List ℕ) (s : Storage) (e : Entity) (sender : Option ℕ) (c : ℕ)
    → distinct os ≡ true
    → (notify s e sender os).queue c
      ≡ (if receives os sender c then offer e (s.capacity c) (s.queue c) else s.queue c)
unfolding notify step
notify-queue [] s e sender c d = refl
notify-queue (o ∷ os) s e sender c d = elim (Bool-cases (c == o)) [
  | inl same ↦ rw ((==_iff c o).0 same) (
      notify-absent os (step s e sender o) e sender o (ground arith)
      ∙ step-queue_self s e sender o
      ∙ rw ==_refl refl)
  | inr other ↦
      notify-queue os (step s e sender o) e sender c (ground arith)
      ∙ ap
          (λ (f : ℕ → ℕ).
            if receives os sender c
            then offer e (f c) ((step s e sender o).queue c)
            else (step s e sender o).queue c)
          (step-capacity s e sender o)
      ∙ ap (λ q. if receives os sender c then offer e (s.capacity c) q else q)
          (step-queue_other s e sender o c other)
      ∙ ap (λ b. if b then offer e (s.capacity c) (s.queue c) else s.queue c) (same_receives other)
]
  where
    same_receives : c == o ≡ false → receives os sender c ≡ receives (o ∷ os) sender c
    same_receives h = ground arith

abbrev pub is_ok {ℓ} : {A : Type ℓ} → Result A → Bool
is_ok (ok a) = true
is_ok (err e) = false
is_ok fatal = false

-- With no channel attached twice, an entity that the database takes is offered once to each observer
-- but the sender, and no other buffer changes; one that it does not take reaches nobody.
pub put_entity-queue :
    (s : Storage) (ent : Entity) (sender : Option ℕ) (now : Time) (c : ℕ)
    → distinct s.observers ≡ true
    → (put_entity s ent sender now).1.queue c ≡ (
        if is_ok (put_in_db s.db ent now).0 && receives s.observers sender c
        then offer ent (s.capacity c) (s.queue c)
        else s.queue c)
unfolding put_entity notify_observers
put_entity-queue s ent sender now c d = after (put_in_db s.db ent now)
  where
    after :
        (q : Outcome × EntityDatabase)
        → (notify_if_put s ent sender q).1.queue c ≡ (
            if is_ok q.0 && receives s.observers sender c
            then offer ent (s.capacity c) (s.queue c)
            else s.queue c)
    after (ok u, db) = notify-queue s.observers (record s { db = db }) ent sender c d
    after (err e, db) = refl
    after (fatal, db) = refl

-- With no channel attached twice, putting an entity fills no buffer that is within its capacity
-- beyond it, and shortens none.
pub put_entity_bounded :
    (s : Storage) (ent : Entity) (sender : Option ℕ) (now : Time) (c : ℕ)
    → distinct s.observers ≡ true
    → length (s.queue c) ≤ s.capacity c
    → (length ((put_entity s ent sender now).1.queue c) ≤ s.capacity c)
      × (length (s.queue c) ≤ length ((put_entity s ent sender now).1.queue c))
put_entity_bounded s ent sender now c d h =
    let q = put_entity-queue s ent sender now c d in
    let one = length-append (s.queue c) (ent ∷ []) in
    rw q (bounds (is_ok (put_in_db s.db ent now).0 && receives s.observers sender c) one)
  where
    bounds :
        (b : Bool)
        → length (s.queue c ++ ent ∷ []) ≡ length (s.queue c) + 1
        → (length (if b then offer ent (s.capacity c) (s.queue c) else s.queue c) ≤ s.capacity c)
          × (length (s.queue c)
              ≤ length (if b then offer ent (s.capacity c) (s.queue c) else s.queue c))
    bounds b one = ground arith

remove_first-absent : (os : List ℕ) (c : ℕ) → is_member c os ≡ false → remove_first c os ≡ os
remove_first-absent [] c h = refl
remove_first-absent (o ∷ os) c h = ground (arith, remove_first-absent os c)

remove_first-member :
    (os : List ℕ) (d c : ℕ)
    → distinct os ≡ true
    → is_member c (remove_first d os) ≡ (is_member c os && not (c == d))
remove_first-member [] d c h = refl
remove_first-member (o ∷ os) d c h =
    let rest = remove_first-member os d c (ground arith) in
    elim (Bool-cases (o == d)) [
      | inl same ↦ rw same (here ((==_iff o d).0 same))
      | inr other ↦ ground arith
    ]
  where
    here : o ≡ d → is_member c os ≡ (is_member c (o ∷ os) && not (c == d))
    here q = elim (Bool-cases (c == d)) [
      | inl at_d ↦ let m = ap (λ x. is_member x os) ((==_iff c d).0 at_d ∙ sym q) in ground arith
      | inr not_d ↦ ground arith
    ]

remove_first-distinct :
    (os : List ℕ) (d : ℕ) → distinct os ≡ true → distinct (remove_first d os) ≡ true
remove_first-distinct [] d h = refl
remove_first-distinct (o ∷ os) d h =
    let rest = remove_first-distinct os d (ground arith) in
    let m = remove_first-member os d o (ground arith) in ground arith

member-append : (os : List ℕ) (c d : ℕ) → is_member c (os ++ d ∷ []) ≡ (is_member c os || (d == c))
member-append [] c d = ground arith
member-append (o ∷ os) c d = ground (arith, member-append os c d)

append-distinct :
    (os : List ℕ) (c : ℕ)
    → distinct os ≡ true
    → is_member c os ≡ false
    → distinct (os ++ c ∷ []) ≡ true
append-distinct [] c h n = refl
append-distinct (o ∷ os) c h n =
    let rest = append-distinct os c (ground arith) (ground arith) in
    let m = member-append os o c in ground arith

-- Where no channel is attached twice, attaching one that is not attached, and detaching any, keeps
-- it so; after detaching it the channel is not attached, and every other one is as before.
pub detach_observer_iff :
    (s : Storage) (d : ℕ)
    → distinct s.observers ≡ true
    → (is_member d s.observers ≡ false → distinct (attach_observer s d).observers ≡ true)
      × (distinct (detach_observer s d).observers ≡ true)
      × ((c : ℕ)
          → is_member c (detach_observer s d).observers ≡ (is_member c s.observers && not (c == d)))
unfolding attach_observer detach_observer
detach_observer_iff s d h = (
  append-distinct s.observers d h,
  remove_first-distinct s.observers d h,
  λ c. remove_first-member s.observers d c h,
)
