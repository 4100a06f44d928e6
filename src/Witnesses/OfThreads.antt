-- ===== src/Witnesses/OfThreads.antt =====
-- Threads at concrete values.
use dscuss.Prelude.{
  ℕ, zero, suc, ◌<◌, ◌≡◌, refl, ap, arith, Bool, true, false, not, ◌||◌, Bool-cases, inl, inr, List,
  [], ◌∷◌, Memᴰ, Option, none, some, Result, ok, err, fatal, ◌==◌, if◌then◌else◌, codes, ◌≤◌,
  msg_depth_exceeded, subst, all, ltb, all_of_mem,
}
use dscuss.Entity.{EntityId, Message, Operation}
use dscuss.Thread.{Node, node, no_child, child, ViewingHandler, view}
use dscuss.Thread.Visiting.{preorder, handle_until, view-preorder}
use dscuss.Thread.Moderating.{IsPruned}
use dscuss.Sqlite.{EntityDatabase}
use dscuss.Sqlite.OperationTable.{get_operations_on_user, get_operations_on_message}
use dscuss.Sqlite.MessageQueries.{get_replies}
use dscuss.Sqlite.Threads.{get_thread}
use dscuss.Sqlite.Threads.Filling.{Descends, IsThread}
use dscuss.Entity.Operations.{type_remove_message}
use dscuss.Sqlite.MessageTable.{get_message}
use dscuss.Subs.Topic.{slice}
use dscuss.Entity.Messages.{emerge_message, is_reply, is_message_valid, max_message_depth}
use dscuss.Entity.Users.{new_user}
use dscuss.Storage.Lookup.{Rooted}
use dscuss.Node.{LoginHandle, list_thread, new_reply}
use dscuss.Node.Listing.{is_shown, list_thread_lem}
use dscuss.Node.Replying.{new_reply_lem}
use dscuss.Owner.View.{moderate_thread}
use dscuss.Owner.View.Moderation.{by_moderator}
use dscuss.Owner.View.Pruning.{IsRecorded, moderate_thread_lem}
use dscuss.Owner.Profile.Caches.{IsAsked}
use dscuss.Witnesses.Samples.{
  sample_env, sample_env-IsLawful, sample_key, first_readings, sample_message, sample_operation,
  sample_profile, sample_profile-IsCoherent, moderated, message_in, go_os,
}

abbrev leaf : Message → Node
leaf m = node m no_child

-- The sample message with two replies.
abbrev sample_thread : Node
sample_thread =
    node sample_message
      (child (leaf (message_in 10 go_os)) (child (leaf (message_in 10 go_os)) no_child))

-- It counts the nodes and refuses the second one.
abbrev up_to_two : ViewingHandler ℕ
up_to_two n d s = (s == 0, suc s)

view-preorder_example :
    view up_to_two 0 sample_thread 0 ≡ handle_until up_to_two (preorder 0 sample_thread) 0
view-preorder_example = view-preorder up_to_two sample_thread 0

-- The sample message, a reply to it, whose ID is the hash of its content, and the removal of the
-- message.
abbrev discussed : EntityDatabase
discussed = record moderated {
  messages =
      record {
        id = 10;
        subject = codes "hello";
        content = codes "text";
        timestamp = 100;
        author_id = 6;
        parent_id = 0;
        signature = 1 ∷ 2 ∷ [];
        time_stored = 150;
      }
      ∷ record {
        id = 8;
        subject = codes "re";
        content = codes "reply";
        timestamp = 110;
        author_id = 6;
        parent_id = 10;
        signature = 1 ∷ 2 ∷ [];
        time_stored = 160;
      }
      ∷ [];
  tags = codes "golang" ∷ [];
  message_tags = record { tag = codes "golang"; message_id = 10 } ∷ [];
}

abbrev removals : Message → List Operation
removals m = if 10 == m.id then sample_operation ∷ [] else []

removals_at_ten :
    (id : EntityId)
    → (10 == id) ≡ true
    → get_operations_on_message sample_env discussed id ≡ ok (sample_operation ∷ [])
unfolding get_operations_on_message dscuss.Entity.Operations.new_operation
removals_at_ten id e =
    let ten : 10 ≡ id = ground arith in
    subst (λ i. get_operations_on_message sample_env discussed i ≡ ok (sample_operation ∷ [])) ten
      refl

no_removals :
    (id : EntityId) → (10 == id) ≡ false → get_operations_on_message sample_env discussed id ≡ ok []
unfolding get_operations_on_message
no_removals id e = rw e refl

are_removals :
    (b : Bool)
    → all (λ o. o.operation_type == type_remove_message) (if b then sample_operation ∷ [] else [])
      ≡ true
are_removals true = refl
are_removals false = refl

recorded : IsRecorded sample_env discussed (λ m. []) removals
recorded = record {
  on_author = λ m. unfold get_operations_on_user in refl;
  are_bans = λ m. refl;
  on_message = λ m. elim (Bool-cases (10 == m.id)) [
    | inl e ↦ rw e (removals_at_ten m.id e)
    | inr e ↦ rw e (no_removals m.id e)
  ];
  are_removals = λ m. are_removals (10 == m.id);
}

moderate_thread_lem_example :
    IsPruned
      (λ m. not (by_moderator sample_profile [] || by_moderator sample_profile (removals m)))
      sample_thread
      (moderate_thread sample_env discussed sample_profile sample_thread).0
    × IsAsked sample_profile (moderate_thread sample_env discussed sample_profile sample_thread).1
moderate_thread_lem_example =
    moderate_thread_lem sample_env discussed sample_profile sample_thread (λ m. []) removals
      sample_profile-IsCoherent recorded

-- The root messages are found as the replies to the ID 0.
abbrev rank : EntityId → ℕ
rank id = if 0 == id then 100 else id

abbrev list_of : Result (List Message) → List Message
list_of (ok ms) = ms
list_of _ = []

small_at_zero :
    (id : EntityId)
    → (0 == id) ≡ true
    → all (λ r. ltb (rank r.id) (rank id)) (list_of (get_replies sample_env discussed id)) ≡ true
unfolding get_replies dscuss.Subs.Topic.new_topic dscuss.Entity.Messages.new_message
    dscuss.Subs.Topic.copy dscuss.Prelude.bytes_eq
small_at_zero id e =
    let zero_id : 0 ≡ id = ground arith in
    subst
      (λ i.
        all (λ r. ltb (rank r.id) (rank i)) (list_of (get_replies sample_env discussed i)) ≡ true)
      zero_id refl

small_at_ten :
    (id : EntityId)
    → (10 == id) ≡ true
    → all (λ r. ltb (rank r.id) (rank id)) (list_of (get_replies sample_env discussed id)) ≡ true
unfolding get_replies dscuss.Subs.Topic.new_topic dscuss.Entity.Messages.new_message
    dscuss.Subs.Topic.copy dscuss.Prelude.bytes_eq
small_at_ten id e =
    let ten : 10 ≡ id = ground arith in
    subst
      (λ i.
        all (λ r. ltb (rank r.id) (rank i)) (list_of (get_replies sample_env discussed i)) ≡ true)
      ten refl

small_elsewhere :
    (id : EntityId)
    → (0 == id) ≡ false
    → (10 == id) ≡ false
    → list_of (get_replies sample_env discussed id) ≡ []
unfolding get_replies
small_elsewhere id e f = rw (e, f) refl

small_replies :
    (id : EntityId)
    → all (λ r. ltb (rank r.id) (rank id)) (list_of (get_replies sample_env discussed id)) ≡ true
small_replies id = elim (Bool-cases (0 == id)) [
  | inl e ↦ small_at_zero id e
  | inr e ↦ elim (Bool-cases (10 == id)) [
    | inl f ↦ small_at_ten id f
    | inr f ↦ ap (all (λ r. ltb (rank r.id) (rank id))) (small_elsewhere id e f)
  ]
]

replies_below : Descends sample_env discussed rank
replies_below id rs r e m =
    let same : list_of (get_replies sample_env discussed id) ≡ rs = ap list_of e in
    let small : all (λ r. ltb (rank r.id) (rank id)) rs ≡ true =
      subst (λ l. all (λ r. ltb (rank r.id) (rank id)) l ≡ true) same (small_replies id) in
    let below : ltb (rank r.id) (rank id) ≡ true =
      all_of_mem (λ r. ltb (rank r.id) (rank id)) rs small m in
    ground arith

abbrev rank_of : Result Message → ℕ
rank_of (ok m) = rank m.id
rank_of _ = 0

root_below : (m : Message) → get_message sample_env discussed 10 ≡ ok m → rank m.id < 11
unfolding get_message dscuss.Subs.Topic.new_topic dscuss.Entity.Messages.new_message
    dscuss.Subs.Topic.copy dscuss.Subs.Topic.join dscuss.Subs.Topic.is_tag_valid
    dscuss.Subs.Topic.is_tag_char dscuss.Prelude.bytes_eq
root_below m e = let ten : 10 ≡ rank m.id = ap rank_of e in omega arith

abbrev handle : LoginHandle
handle = record {
  user = new_user sample_env (codes "eve") [] sample_key 0 50 [];
  signer = sample_key;
  storage = record { db = discussed; observers = []; queue = λ c. []; capacity = λ c. 100 };
  profile = sample_profile;
  last_msg = 0;
  last_oper = 0;
}

list_thread_lem_example :
    (x : Result (Option Node) × LoginHandle) × (list_thread sample_env handle 11 10 ≡ some x)
    × ((t : Node)
        → get_thread sample_env discussed 11 10 ≡ some (ok t)
        → IsThread sample_env discussed 10 t × IsPruned (is_shown handle (λ m. []) removals) t x.0)
list_thread_lem_example =
    list_thread_lem sample_env handle rank 11 10 (λ m. []) removals replies_below root_below
      sample_profile-IsCoherent recorded

abbrev stored_message : Message
stored_message = record sample_message {
  unsigned = record sample_message.unsigned {
    content = record sample_message.unsigned.content { topic = slice (codes "golang" ∷ []) };
  };
}

parent_found : get_message sample_env discussed 10 ≡ ok stored_message
unfolding get_message dscuss.Subs.Topic.new_topic dscuss.Entity.Messages.new_message
    dscuss.Subs.Topic.copy dscuss.Subs.Topic.join dscuss.Subs.Topic.is_tag_valid
    dscuss.Subs.Topic.is_tag_char dscuss.Prelude.bytes_eq
parent_found = refl

parent_root : Rooted sample_env discussed stored_message stored_message 0
unfolding is_reply
parent_root = Rooted.top stored_message refl

new_reply_lem_example :
    (max_message_depth ≤ 0
      → new_reply sample_env handle 1 first_readings (codes "re") (codes "hi") 10
        ≡ some (err msg_depth_exceeded, handle))
    × (0 < max_message_depth
        → let (res, last) =
            emerge_message sample_env handle.last_msg first_readings
              (codes "re")
              (codes "hi")
              handle.user.id
              10
              handle.signer
              dscuss.Subs.Topic.nil in
          (new_reply sample_env handle 1 first_readings (codes "re") (codes "hi") 10
            ≡ some (res, record handle { last_msg = last }))
          × ((m : Message) → res ≡ ok m → is_message_valid sample_env m sample_key ≡ ok true))
new_reply_lem_example =
    new_reply_lem sample_env handle 1 first_readings (codes "re") (codes "hi") 10 stored_message
      stored_message 0 sample_env-IsLawful parent_found parent_root (omega arith)
