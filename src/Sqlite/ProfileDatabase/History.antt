-- ===== src/Sqlite/ProfileDatabase/History.antt =====
-- sqlite/profile_database.go: storing and reading the history of a user.
use dscuss.Prelude.{
  sym, ◌≤◌, Bytes, ◌≡◌, ◌≢◌, refl, ap, ◌∙◌, arith, Bool, true, false, not, List, [], ◌∷◌, ◌++◌,
  length, any, all, select, find-append_none, Memᴰ, ◌==◌, ==_refl, if◌then◌else◌, none, some,
  Result, ok, ◌>>=◌,
}
use dscuss.Subs.Topic
use dscuss.Subs.Topic.{Topic, nil, slice, to_string}
use dscuss.Subs.Topic.Lines.{is_line, to_string-is_line}
use dscuss.Subs.Subscriptions
use dscuss.Subs.Subscriptions.{Subscriptions, string_slice, read}
use dscuss.Subs.Subscriptions.Reading.{Fresh, read-string_slice}
use dscuss.Entity.{EntityId, UserHistory}
use dscuss.Subs.Subscriptions.Reordering.{reorder}
use dscuss.Env.{Env, JoinsAll, occurrences, user_history}
use dscuss.Sqlite.MessageTable.{or_inconsistent}
use dscuss.Sqlite.ProfileDatabase.{
  HistoryRow, ProfileDatabase, delete_history, user_topics_of, put_user_history, topics_in,
  join_lines, subs_of, history_of, get_user_history,
}

-- What bufio.Scanner documents: lines that are joined by '\n' are read back.
abbrev pub ScansLines : Env → Type 0
ScansLines env = (ls : List Bytes) → all is_line ls ≡ true → env.scan_lines (join_lines ls) ≡ ls

module _ {ℓ} {A : Type ℓ} (key : A → EntityId) (id : EntityId) where
  deleted_any :
      (rows : List A) → any (λ r. key r == id) (select (λ r. not (key r == id)) rows) ≡ false
  deleted_any [] = refl
  deleted_any (r ∷ rs) = ground (arith, deleted_any rs)

  deleted_select :
      (rows new : List A)
      → select (λ r. key r == id) (select (λ r. not (key r == id)) rows ++ new)
        ≡ select (λ r. key r == id) new
  deleted_select [] new = refl
  deleted_select (r ∷ rs) new = by_key (key r == id) refl (deleted_select rs new)
    where
      by_key :
          (b : Bool)
          → (key r == id) ≡ b
          → select (λ r. key r == id) (select (λ r. not (key r == id)) rs ++ new)
            ≡ select (λ r. key r == id) new
          → select
              (λ r. key r == id)
              ((if not b
                  then r ∷ select (λ r. not (key r == id)) rs
                  else select (λ r. not (key r == id)) rs)
                ++ new)
            ≡ select (λ r. key r == id) new
      by_key true e ih = ih
      by_key false e ih =
          ap
            (λ b.
              if b
              then r ∷ select (λ r. key r == id) (select (λ r. not (key r == id)) rs ++ new)
              else select (λ r. key r == id) (select (λ r. not (key r == id)) rs ++ new))
            e
          ∙ ih

topics_in-user_topics_of :
    (id : EntityId) (s : Subscriptions)
    → topics_in (select (λ r. r.user_id == id) (user_topics_of id s)) ≡ string_slice s
unfolding string_slice
topics_in-user_topics_of id [] = refl
topics_in-user_topics_of id (t ∷ ts) = rw (==_refl id, topics_in-user_topics_of id ts) refl

string_slice-lines :
    (s : Subscriptions)
    → all Topic.is_valid s ≡ true
    → ((t : Topic) → Memᴰ t s → t ≢ nil)
    → all is_line (string_slice s) ≡ true
unfolding string_slice
string_slice-lines [] v n = refl
string_slice-lines (t ∷ ts) v n =
    let here = to_string-is_line t (ground arith) (n t (Memᴰ.head refl)) in
    let rest = string_slice-lines ts (ground arith) (λ u m. n u (Memᴰ.tail m)) in ground arith

subs_of-string_slice :
    (env : Env) (s : Subscriptions)
    → ScansLines env
    → Subscriptions.is_valid s ≡ true
    → Fresh [] s
    → ((t : Topic) → Memᴰ t s → t ≢ nil)
    → subs_of env (string_slice s) ≡ ok s
unfolding string_slice Subscriptions.is_valid
subs_of-string_slice env [] sc v f n = absurd (ground arith)
subs_of-string_slice env (t ∷ ts) sc v f n =
    let valid : all Topic.is_valid (t ∷ ts) ≡ true = ground arith in
    let short : length (t ∷ ts) ≤ 33 = ground arith in
    ap (λ ls. or_inconsistent (read false ls))
      (sc (string_slice (t ∷ ts)) (string_slice-lines (t ∷ ts) valid n))
    ∙ ap or_inconsistent (read-string_slice (t ∷ ts) valid f short)

-- A history of the same user and time, with the same topics, each once, in any order.
pub record IsSameHistory (h h' : UserHistory) : Type 0 where
  pub user : h'.id ≡ h.id
  pub time : h'.disconnected ≡ h.disconnected
  pub once : Fresh [] h'.subs
  pub from : (t : Topic) → Memᴰ t h'.subs → Memᴰ t h.subs
  pub onto : (t : Topic) → Memᴰ t h.subs → Memᴰ t h'.subs

-- The history that was stored for a user is read back, whatever was stored for that user before, with
-- the same topics, each once, in some order, if its subscriptions are valid and distinct and no topic
-- in them is nil. GROUP_CONCAT is taken to join all the lines, in an arbitrary order, and the scanner
-- to find the lines that were joined.
pub get_user_history-put_user_history :
    (env : Env) (db : ProfileDatabase) (h : UserHistory)
    → JoinsAll env
    → ScansLines env
    → Subscriptions.is_valid h.subs ≡ true
    → Fresh [] h.subs
    → ((t : Topic) → Memᴰ t h.subs → t ≢ nil)
    → (h' : UserHistory) × (get_user_history env (put_user_history db h) h.id ≡ ok h')
      × IsSameHistory h h'
unfolding get_user_history put_user_history history_of
get_user_history-put_user_history env db h joins sc v f n =
    let row : HistoryRow = record { user_id = h.id; disconnected = h.disconnected } in
    let after = put_user_history db h in
    let found =
      find-append_none (λ r. r.user_id == h.id) (delete_history h.id db.history_rows) (row ∷ [])
        (deleted_any (λ r. r.user_id) h.id db.history_rows)
      ∙ ap (λ b. if b then some row else none) (==_refl h.id) in
    let inserted = topics_in (select (λ r. r.user_id == h.id) after.user_topic_rows) in
    let topics : inserted ≡ string_slice h.subs =
      ap topics_in
        (deleted_select (λ r. r.user_id) h.id db.user_topic_rows (user_topics_of h.id h.subs))
      ∙ topics_in-user_topics_of h.id h.subs in
    let lines = env.concat_order user_history (topics_in after.user_topic_rows) inserted in
    let joined = joins user_history (topics_in after.user_topic_rows) inserted in
    let (s', r) =
      reorder h.subs lines v f (joined.0 ∙ ap length topics)
        (λ u. joined.1 u ∙ ap (occurrences u) topics) in
    (
      (let h' : UserHistory = record { id = h.id; disconnected = h.disconnected; subs = s' } in h'),
      ap (history_of env after h.id) found
          ∙ ap (λ ts. stored (subs_of env ts)) (sym r.printed)
          ∙ ap stored (subs_of-string_slice env s' sc r.valid r.fresh (λ t m. n t (r.from t m))),
      record { user = refl; time = refl; once = r.fresh; from = r.from; onto = r.onto },
    )
  where
    stored : Result Subscriptions → Result UserHistory
    stored r = do s ← r; ok (record { id = h.id; disconnected = h.disconnected; subs = s })
