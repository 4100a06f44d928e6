-- ===== src/Sqlite/MessageTable/RoundTrip.antt =====
-- sqlite/entity_database.go: `PutMessage`, then `GetMessage`.
use dscuss.Prelude.{
  err, fatal, subst, sym, length, ◌≡◌, refl, ap, ◌∙◌, Bytes, Bool, true, false, not, ◌&&◌, List, [],
  ◌∷◌, ◌++◌, any, select, any-append, find-append_none, ◌==◌, ==_refl, bytes_eq, arith, some,
  Result, ◌>>=◌, ok, append_assoc, append-nil,
}
use dscuss.Subs.Topic
use dscuss.Subs.Topic.{Topic, nil, slice, check_tags, to_string, join, new_topic}
use dscuss.Subs.Topic.Strings.{is_clean_of_is_valid}
use dscuss.Entity.{EntityId, Time, type_message, Message}
use dscuss.Entity.Messages.Posting.{is_unsigned_message_valid_iff}
use dscuss.Entity.Messages.{
  is_nil, new_message_content, new_unsigned_message, is_unsigned_part_valid, new_message,
}
use dscuss.Env.{Env, JoinsAll, occurrences, one_message}
use dscuss.Sqlite.{EntityDatabase, MessageTag, insert_or_ignore}
use dscuss.Sqlite.MessageTable.Reordering.{is_valid_reordered}
use dscuss.Sqlite.MessageTable.Columns.{parse_topic-names, new_message-columns}
use dscuss.Sqlite.MessageTable.{
  topic_string, put_tag, is_tag_of, put_message_tag, put_message_topic, row_of_message, put_message,
  tag_names, names_of, concat_names, message_of_row, or_inconsistent, find_message, found_message,
  get_message, has_message,
}

abbrev pub rows_of : List Bytes → EntityId → List MessageTag
rows_of [] id = []
rows_of (t ∷ ts) id = record { tag = t; message_id = id } ∷ rows_of ts id

pub messages-put_message_topic :
    (db : EntityDatabase) (ts : List Bytes) (id : EntityId)
    → (put_message_topic db ts id).1.messages ≡ db.messages
unfolding put_message_topic
messages-put_message_topic db [] id = refl
messages-put_message_topic db (t ∷ ts) id =
    ground (arith, messages-put_message_topic (put_message_tag (put_tag db t) t id).1 ts id)

-- The tags of the message that are stored so far are those seen.
abbrev Seen : EntityDatabase → List Bytes → EntityId → Type 0
Seen db seen id = (t : Bytes) → any (is_tag_of t id) db.message_tags ≡ any (λ s. bytes_eq s t) seen

put_message_tag-new :
    (db : EntityDatabase) (t : Bytes) (id : EntityId)
    → any (is_tag_of t id) db.message_tags ≡ false
    → let (r, db') = put_message_tag (put_tag db t) t id in
      (r ≡ ok tt) × (db'.message_tags ≡ db.message_tags ++ record { tag = t; message_id = id } ∷ [])
unfolding put_message_tag put_tag
put_message_tag-new db t id h = ground arith

Seen-put_message_tag :
    (db db' : EntityDatabase) (seen : List Bytes) (t : Bytes) (id : EntityId)
    → Seen db seen id
    → db'.message_tags ≡ db.message_tags ++ record { tag = t; message_id = id } ∷ []
    → Seen db' (t ∷ seen) id
Seen-put_message_tag db db' seen t id h e u =
    ap (any (is_tag_of u id)) e
    ∙ any-append (is_tag_of u id) db.message_tags _
    ∙ ground (arith, h u, ==_refl id)

-- No tag comes twice, nor is among those seen.
abbrev pub distinct : List Bytes → List Bytes → Bool
distinct seen [] = true
distinct seen (t ∷ ts) = not (any (λ s. bytes_eq s t) seen) && distinct (t ∷ seen) ts

pub put_message_topic-fresh :
    (db : EntityDatabase) (seen ts : List Bytes) (id : EntityId)
    → Seen db seen id
    → distinct seen ts ≡ true
    → let (r, db') = put_message_topic db ts id in
      (r ≡ ok tt) × (db'.message_tags ≡ db.message_tags ++ rows_of ts id)
unfolding put_message_topic
put_message_topic-fresh db seen [] id h c = (refl, rw append-nil)
put_message_topic-fresh db seen (t ∷ ts) id h c =
    let unseen : any (λ s. bytes_eq s t) seen ≡ false = ground arith in
    let later : distinct (t ∷ seen) ts ≡ true = ground arith in
    let db' = (put_message_tag (put_tag db t) t id).1 in
    let step = put_message_tag-new db t id (h t ∙ unseen) in
    let rest =
      put_message_topic-fresh db' (t ∷ seen) ts id (Seen-put_message_tag db db' seen t id h step.1)
        later in
    rw (step.0, put_message_topic)
      (
        rest.0,
        rest.1
            ∙ ap (λ (l : List MessageTag). l ++ rows_of ts id) step.1
            ∙ append_assoc db.message_tags _ (rows_of ts id),
      )

select-none :
    (l : List MessageTag) (id : EntityId)
    → any (λ r. r.message_id == id) l ≡ false
    → select (λ r. r.message_id == id) l ≡ []
select-none [] id h = refl
select-none (r ∷ l) id h = ground (arith, select-none l id)

select-append :
    (p : MessageTag → Bool) (xs ys : List MessageTag)
    → select p (xs ++ ys) ≡ select p xs ++ select p ys
select-append p [] ys = refl
select-append p (x ∷ xs) ys = ground (arith, select-append p xs ys)

names-rows_of :
    (ts : List Bytes) (id : EntityId)
    → tag_names (select (λ r. r.message_id == id) (rows_of ts id)) ≡ ts
names-rows_of [] id = refl
names-rows_of (t ∷ ts) id = ground (arith, names-rows_of ts id, ==_refl id)

untagged-Seen :
    (l : List MessageTag) (t : Bytes) (id : EntityId)
    → any (λ r. r.message_id == id) l ≡ false
    → any (is_tag_of t id) l ≡ false
untagged-Seen [] t id h = refl
untagged-Seen (r ∷ l) t id h = ground (arith, untagged-Seen l t id)

distinct_of_check_tags :
    (seen ts : List Bytes) → check_tags seen ts ≡ true → distinct seen ts ≡ true
unfolding check_tags
distinct_of_check_tags seen [] c = refl
distinct_of_check_tags seen (t ∷ ts) c = ground (arith, distinct_of_check_tags (t ∷ seen) ts)

distinct_of_is_valid :
    (topic : Topic) → Topic.is_valid topic ≡ true → distinct [] (Topic.tags topic) ≡ true
distinct_of_is_valid topic v =
    distinct_of_check_tags [] (Topic.tags topic) (is_clean_of_is_valid topic v)

pub record IsNew (db : EntityDatabase) (m : Message) : Type 0 where
  pub unstored : has_message db m.id ≡ false
  pub untagged : any (λ r. r.message_id == m.id) db.message_tags ≡ false

module _ (db : EntityDatabase) (m : Message) (ts : Time) where
  abbrev with_row : EntityDatabase
  with_row = record db { messages = insert_or_ignore (λ r. r.id) (row_of_message m ts) db.messages }

  pub put_message-fresh :
      IsNew db m
      → distinct [] (Topic.tags m.topic) ≡ true
      → let (r, db') = put_message db m ts in
        (r ≡ ok tt) × (db'.message_tags ≡ db.message_tags ++ rows_of (Topic.tags m.topic) m.id)
  unfolding put_message
  put_message-fresh new v =
      put_message_topic-fresh with_row [] (Topic.tags m.topic) m.id
        (λ t. untagged-Seen db.message_tags t m.id new.untagged) v

  pub find_message-put :
      IsNew db m → find_message (put_message db m ts).1 m.id ≡ some (row_of_message m ts)
  unfolding find_message put_message has_message
  find_message-put new =
      rw (messages-put_message_topic with_row (Topic.tags m.topic) m.id, new.unstored)
        (find-append_none (λ r. r.id == m.id) db.messages (row_of_message m ts ∷ []) new.unstored
          ∙ rw ==_refl)

  pub names_of-put :
      IsNew db m
      → distinct [] (Topic.tags m.topic) ≡ true
      → names_of (put_message db m ts).1 m.id ≡ Topic.tags m.topic
  unfolding names_of
  names_of-put new v =
      rw
        (
          (put_message-fresh new v).1,
          select-append (λ r. r.message_id == m.id) db.message_tags
              (rows_of (Topic.tags m.topic) m.id),
          select-none db.message_tags m.id new.untagged,
        )
        (names-rows_of (Topic.tags m.topic) m.id)

-- A message that is as another but for the order of the tags of its topic, and so for its ID; with
-- the tags in the same order it is the same.
pub record IsReordered (m m' : Message) : Type 0 where
  pub subject : m'.subject ≡ m.subject
  pub text : m'.text ≡ m.text
  pub author : m'.author_id ≡ m.author_id
  pub parent : m'.parent_id ≡ m.parent_id
  pub date : m'.date_written ≡ m.date_written
  pub signature : m'.sig ≡ m.sig
  pub tags : (t : Bytes) → occurrences t (Topic.tags m'.topic) ≡ occurrences t (Topic.tags m.topic)
  pub same : Topic.tags m'.topic ≡ Topic.tags m.topic → m' ≡ m

IsReordered-refl : (m : Message) → IsReordered m m
IsReordered-refl m = record {
  subject = refl;
  text = refl;
  author = refl;
  parent = refl;
  date = refl;
  signature = refl;
  tags = λ t. refl;
  same = λ h. refl;
}

-- What is read of the row of a message when its tags are joined in the given order.
abbrev read_row : Env → Message → Time → List Bytes → Result Message
unfolding message_of_row
read_row env m ts names = message_of_row env (row_of_message m ts) (concat_names names)

abbrev ok_or : Message → Result Message → Message
ok_or m (ok a) = a
ok_or m (err e) = m
ok_or m fatal = m

module _ (env : Env) (m : Message) (ts : Time) where
  abbrev reordered : List Bytes → Message
  reordered names = record {
    unsigned =
        new_unsigned_message env m.subject m.text m.author_id m.parent_id m.date_written
          (slice names);
    sig = m.sig;
  }

  rebuilt :
      (m' : Message)
      → m'.typ ≡ type_message
      → is_unsigned_part_valid env m' ≡ true
      → Topic.is_valid m'.topic ≡ true
      → message_of_row env (row_of_message m' ts) (concat_names (Topic.tags m'.topic)) ≡ ok m'
  unfolding message_of_row
  rebuilt m' t v tv =
      ap
        (λ (x : Result Topic). do
          t ← x
          or_inconsistent (
              new_message env m'.subject m'.text m'.author_id m'.parent_id m'.date_written m'.sig
                t))
        (parse_topic-names m'.topic tv)
      ∙ ap or_inconsistent (new_message-columns env m' t v)

  reordered-valid :
      (x : Bytes) (xs : List Bytes)
      → is_nil m.topic ≡ false
      → is_unsigned_part_valid env m ≡ true
      → is_unsigned_part_valid env (reordered (x ∷ xs)) ≡ true
  unfolding is_unsigned_part_valid new_unsigned_message new_message_content Topic.copy
  reordered-valid x xs e v =
      let w = (is_unsigned_message_valid_iff env m.unsigned).0 v in
      (is_unsigned_message_valid_iff env (reordered (x ∷ xs)).unsigned).1 (record {
        hashed = refl;
        subject_fits = w.subject_fits;
        text_fits = w.text_fits;
        subject_given = w.subject_given;
        text_given = w.text_given;
        root_has_topic = λ h. refl;
        reply_has_none = λ h. let n = w.reply_has_none h in absurd (ground arith);
      })

  read-IsReordered :
      (topic : Topic) (names : List Bytes)
      → m.topic ≡ topic
      → m.typ ≡ type_message
      → is_unsigned_part_valid env m ≡ true
      → Topic.is_valid topic ≡ true
      → length names ≡ length (Topic.tags topic)
      → ((t : Bytes) → occurrences t names ≡ occurrences t (Topic.tags topic))
      → (m' : Message) × (read_row env m ts names ≡ ok m') × IsReordered m m'
  unfolding read_row message_of_row new_unsigned_message new_message_content Topic.copy
  read-IsReordered nil [] e t v tv l o = (
    m,
    subst (λ x. read_row env m ts x ≡ ok m) (ap Topic.tags e)
        (rebuilt m t v (subst (λ x. Topic.is_valid x ≡ true) (sym e) tv)),
    IsReordered-refl m,
  )
  read-IsReordered nil (x ∷ xs) e t v tv l o = absurd (omega (arith, l))
  read-IsReordered (slice []) names e t v tv l o = absurd (unfold Topic.is_valid in ground arith)
  read-IsReordered (slice (y ∷ ys)) [] e t v tv l o = absurd (omega (arith, l))
  read-IsReordered (slice (y ∷ ys)) (x ∷ xs) e t v tv l o =
      let r = reordered (x ∷ xs) in
      let read =
        rebuilt r refl (reordered-valid x xs (ap is_nil e) v)
          (is_valid_reordered y x ys xs l o tv) in
      let whole = rebuilt m t v (subst (λ z. Topic.is_valid z ≡ true) (sym e) tv) in
      (
        r,
        read,
        record {
          subject = refl;
          text = refl;
          author = refl;
          parent = refl;
          date = refl;
          signature = refl;
          tags = λ u. o u ∙ ap (λ z. occurrences u (Topic.tags z)) (sym e);
          same = λ h. ap (ok_or m) (
              sym read
              ∙ ap (λ z. message_of_row env (row_of_message m ts) (concat_names z)) h
              ∙ whole);
        },
      )

-- A valid message with a valid topic is got back after it is put, but for the order of its tags:
-- into a database that has neither the message nor tags for its ID, the put succeeds, and
-- `GetMessage` returns a message with the same columns and with the same tags, each as often. It is
-- the message itself, ID included, if GROUP_CONCAT has joined the tags in their order. GROUP_CONCAT
-- is taken to join all the names, in an arbitrary order.
pub get_message-put_message :
    (env : Env) (db : EntityDatabase) (m : Message) (ts : Time)
    → JoinsAll env
    → IsNew db m
    → m.typ ≡ type_message
    → is_unsigned_part_valid env m ≡ true
    → Topic.is_valid m.topic ≡ true
    → ((put_message db m ts).0 ≡ ok tt)
      × (m' : Message) × (get_message env (put_message db m ts).1 m.id ≡ ok m')
      × IsReordered m m'
unfolding get_message topic_string
get_message-put_message env db m ts joins new t v tv =
    let d = distinct_of_is_valid m.topic tv in
    let after = (put_message db m ts).1 in
    let names = env.concat_order one_message after.tags (names_of after m.id) in
    let joined = joins one_message after.tags (names_of after m.id) in
    let put = names_of-put db m ts new d in
    let (m', e, r) =
      read-IsReordered env m ts m.topic names refl t v tv (joined.0 ∙ ap length put)
        (λ u. joined.1 u ∙ ap (occurrences u) put) in
    (
      (put_message-fresh db m ts new d).0,
      m',
      ap (found_message env after m.id) (find_message-put db m ts new) ∙ e,
      r,
    )
