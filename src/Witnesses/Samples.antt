-- ===== src/Witnesses/Samples.antt =====
-- The sample values: an environment of library functions, topics, a message, an operation.
use dscuss.Prelude.{
  List, ◌≡◌, ap, sym, ◌∙◌, true, false, all, append-nil, append_assoc, ◌==◌, if◌then◌else◌, suc,
  ◌%◌, refl, Bytes, codes, ◌&&◌, [], ◌∷◌, ◌++◌, length, ◌==◌, ==_refl, some, arith,
}
use dscuss.Subs.Topic.{Topic, slice}
use dscuss.Subs.Topic.Lines.{is_inner, is_line}
use dscuss.Sqlite.ProfileDatabase.{join_lines}
use dscuss.Sqlite.ProfileDatabase.History.{ScansLines}
use dscuss.Entity.{EntityId, Message, Operation, PrivateKey}
use dscuss.Entity.Messages.{Readings}
use dscuss.Entity.Messages.Posting.{Draft}
use dscuss.Packet.{Payload}
use dscuss.Sqlite.{EntityDatabase, empty}
use dscuss.Owner.Profile.{Profile}
use dscuss.Owner.Profile.Caches.{IsCoherent}
use dscuss.Env.{Env, IsLawful, JoinsAll}

abbrev last_line : Bytes → List Bytes
last_line [] = []
last_line (a ∷ acc) = (a ∷ acc) ∷ []

-- The lines of a text, the bytes of the first one before `acc`.
abbrev pub lines_from : Bytes → Bytes → List Bytes
lines_from acc [] = last_line acc
lines_from acc (c ∷ s) =
    let ended = acc ∷ lines_from [] s in
    let longer = lines_from (acc ++ c ∷ []) s in if c == b'\n' then ended else longer

abbrev pub sample_env : Env
sample_env = record {
  sha256 = λ s. suc (length s);
  curve_len = λ k. 1;
  public = λ k. k;
  ecdsa_sign = λ k h. (h % 256, length k % 256);
  ecdsa_verify = λ k h r s. (r == h % 256) && (s == length k % 256);
  scrypt = λ s. 0;
  json_message_content = λ c. c.subject ++ c.text;
  json_message = λ u. u.subject ++ u.text;
  json_operation_content = λ c. c.comment;
  json_operation = λ u. u.comment;
  json_user = λ u. u.nickname;
  json_body = λ b. b.payload;
  json_payload = λ p. codes "announce";
  unmarshal = λ t s. some (Payload.announce 7);
  concat_order = λ q table l. l;
  timestamp_text = λ id t. t ∷ [];
  stored_text = λ t. t ∷ [];
  argument_text = λ t. t ∷ [];
  scan_lines = lines_from [];
  base64 = λ i. i ∷ [];
}

pub sample_env-IsLawful : IsLawful sample_env
sample_env-IsLawful = record {
  verifies = λ k h. rw (==_refl (h % 256), ==_refl (length k % 256)) refl;
  fits = λ k h. (ground arith, ground arith);
}

pub sample_env-JoinsAll : JoinsAll sample_env
sample_env-JoinsAll = λ q table l. (refl, λ t. refl)

lines_from-ended :
    (acc l rest : Bytes)
    → all is_inner l ≡ true
    → lines_from acc (l ++ b'\n' ∷ rest) ≡ (acc ++ l) ∷ lines_from [] rest
lines_from-ended acc [] rest h = ap (λ a. a ∷ lines_from [] rest) (sym (append-nil acc))
lines_from-ended acc (c ∷ l) rest h =
    let inner : (c == b'\n') ≡ false = ground arith in
    ap
      (λ b.
        if b
        then acc ∷ lines_from [] (l ++ b'\n' ∷ rest)
        else lines_from (acc ++ c ∷ []) (l ++ b'\n' ∷ rest))
      inner
    ∙ lines_from-ended (acc ++ c ∷ []) l rest (ground arith)
    ∙ ap (λ a. a ∷ lines_from [] rest) (append_assoc acc (c ∷ []) l)

lines_from-last : (acc l : Bytes) → all is_inner l ≡ true → lines_from acc l ≡ last_line (acc ++ l)
lines_from-last acc [] h = ap last_line (sym (append-nil acc))
lines_from-last acc (c ∷ l) h =
    let inner : (c == b'\n') ≡ false = ground arith in
    ap (λ b. if b then acc ∷ lines_from [] l else lines_from (acc ++ c ∷ []) l) inner
    ∙ lines_from-last (acc ++ c ∷ []) l (ground arith)
    ∙ ap last_line (append_assoc acc (c ∷ []) l)

last_line-line : (l : Bytes) → is_line l ≡ true → last_line l ≡ l ∷ []
last_line-line [] h = absurd (ground arith)
last_line-line (c ∷ l) h = refl

inner_of_line : (l : Bytes) → is_line l ≡ true → all is_inner l ≡ true
inner_of_line [] h = refl
inner_of_line (c ∷ l) h = ground arith

pub sample_env-ScansLines : ScansLines sample_env
sample_env-ScansLines [] h = refl
sample_env-ScansLines (l ∷ []) h =
    let line : is_line l ≡ true = ground arith in
    lines_from-last [] l (inner_of_line l line) ∙ last_line-line l line
sample_env-ScansLines (l ∷ m ∷ ls) h =
    let line : is_line l ≡ true = ground arith in
    let rest : all is_line (m ∷ ls) ≡ true = ground arith in
    lines_from-ended [] l (join_lines (m ∷ ls)) (inner_of_line l line)
    ∙ ap (λ r. l ∷ r) (sample_env-ScansLines (m ∷ ls) rest)

abbrev pub tag_go : Bytes
tag_go = codes "golang"

abbrev pub tag_os : Bytes
tag_os = codes "linux"

abbrev pub go_os : Topic
go_os = slice (tag_go ∷ tag_os ∷ [])

abbrev pub only_go : Topic
only_go = slice (tag_go ∷ [])

abbrev pub sample_key : PrivateKey
sample_key = 3 ∷ 4 ∷ []

-- A message and an operation by user 6, whose IDs are the hashes of their contents.
abbrev pub message_in : EntityId → Topic → Message
message_in parent_id topic = record {
  unsigned = record {
    descriptor = record { typ = 1; id = 10 };
    content = record {
      subject = codes "hello";
      text = codes "text";
      author_id = 6;
      parent_id = parent_id;
      date_written = 100;
      topic = topic;
    };
  };
  sig = 1 ∷ 2 ∷ [];
}

abbrev pub sample_message : Message
sample_message = message_in 0 go_os

abbrev pub sample_operation : Operation
sample_operation = record {
  unsigned = record {
    descriptor = record { typ = 2; id = 5 };
    content = record {
      operation_type = 0;
      reason = 1;
      comment = codes "spam";
      author_id = 6;
      object_id = 10;
      date_performed = 100;
    };
  };
  sig = 1 ∷ 2 ∷ [];
}

abbrev pub first_readings : Readings
first_readings = record { checked = 100000000000; stamped = 100000000001; written = 100000000002 }

abbrev pub next_readings : Readings
next_readings = record { checked = 160000000001; stamped = 160000000002; written = 160000000003 }

abbrev pub early_readings : Readings
early_readings = record { checked = 100000000003; stamped = 100000000004; written = 100000000005 }

abbrev pub sample_draft : Draft
sample_draft = record {
  subject = codes "hello";
  text = codes "text";
  author_id = 5;
  parent_id = 0;
  signer = sample_key;
  topic = go_os;
}

abbrev pub empty_draft : Draft
empty_draft = record sample_draft { text = [] }

-- The profile of user 9, who has user 6 as a moderator and reads one topic.
abbrev pub sample_profile : Profile
sample_profile = record {
  db = record {
    moderator_rows = 6 ∷ [];
    topic_rows = tag_go ∷ [];
    history_rows = [];
    user_topic_rows = [];
  };
  moderators = some (6 ∷ 9 ∷ []);
  subs = [];
  self_id = 9;
}

-- A database with the sample operation, which removes the sample message.
abbrev pub moderated : EntityDatabase
moderated = record empty {
  operations =
      record {
        id = 5;
        typ = 0;
        reason = 1;
        comment = codes "spam";
        author_id = 6;
        timestamp = 100;
        signature = 1 ∷ 2 ∷ [];
        time_stored = 200;
      }
      ∷ [];
  operations_on_messages = record { operation_id = 5; object_id = 10 } ∷ [];
}

pub sample_profile-IsCoherent : IsCoherent sample_profile
sample_profile-IsCoherent = record {
  moderators_loaded = λ ms e. ground arith;
  subs_loaded = λ n. absurd (n refl);
}
