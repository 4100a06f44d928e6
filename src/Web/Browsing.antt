-- ===== src/Web/Browsing.antt =====
-- cmd/dscuss-web/controller/: the pages that change nothing, but for the caches of the profile.
use dscuss.Prelude.{
  pos, ℕ, leb, ◌==◌, ◌&&◌, ◌||◌, bytes_eq, all, drop, Bytes, codes, Bool, true, false, List, [],
  ◌∷◌, ◌++◌, map, if◌then◌else◌, Option, none, some, Result, ok, err, fatal, is_no_such_entity,
}
use dscuss.Subs.Topic.{Topic, nil, slice, new_topic}
use dscuss.Entity.{EntityId, Message, Operation, UserHistory}
use dscuss.Thread
use dscuss.Sqlite.{get_user}
use dscuss.Sqlite.OperationTable.{get_operations_on_user, get_operations_on_message}
use dscuss.Sqlite.ProfileDatabase.{get_full_history}
use dscuss.Node.{LoginHandle, list_board, list_topic, list_thread}
use dscuss.Web.Http.{
  has_prefix, not_found, bad_request, Page, ThreadView, RootView, MessageView, assign_user,
  assign_message, assign_root, assign_operation, assign_history,
}
use dscuss.Web.Http
use dscuss.Web.Acting.{
  Call, Act, ◌>>=◌, ◌>>◌, panicked, ended, done, finish, reply, respond, require, require_session,
  require_count, require_at_most_one, parse_id, get_handle, use_handle, use_search, or_panic,
  or_not_found, or_bad_request, render_page,
}

abbrev pub is_topic_char : ℕ → Bool
is_topic_char ch = leb b'a' ch && leb ch b'z' || ch == b','

-- The regular expression ^/board(topic=[a-z,]*)?$
unfoldable pub is_board_path : Bytes → Bool
unfolding has_prefix
is_board_path s =
    has_prefix s (codes "/board")
    && (bytes_eq s (codes "/board")
        || (has_prefix s (codes "/boardtopic=") && all is_topic_char (drop 12 s)))

unfoldable pub list_messages : Call → Topic → Act (Result (List Message))
unfolding list_board list_topic
list_messages c nil = use_handle c (λ lh. list_board c.env lh (pos 0) (pos 10))
list_messages c (slice ts) = use_handle c (λ lh. list_topic c.env lh (slice ts) (pos 0) (pos 10))

unfoldable pub handle_board : Call → Act (Unit {0})
unfolding is_board_path list_messages new_topic assign_root
handle_board c = do
  require_at_most_one c
  require (is_board_path c.request.path) not_found
  topic ← or_bad_request (new_topic (c.request.query (codes "topic")))
  mm ← list_messages c topic
  messages ← or_panic mm
  lh ← get_handle c
  render_page c (c.request.query (codes "topic"))
      (λ cd. Http.board cd (map (assign_root c.env c.lib lh) messages))

-- `ThreadComposer.Handle`; a node is the root if no node is above it.
unfoldable pub compose : Call → LoginHandle → Thread.ViewingHandler ThreadView
unfolding assign_root assign_message
compose c lh n d t =
    if d == 0
    then (true, record t { root = some (assign_root c.env c.lib lh (Thread.msg n)) })
    else (
      true,
      record t { replies = t.replies ++ assign_message c.env c.lib lh (Thread.msg n) ∷ [] },
    )

abbrev pub empty_thread : ThreadView
empty_thread = record { root = none; replies = [] }

abbrev pub topic_of : Option RootView → Bytes
topic_of none = []
topic_of (some rm) = rm.topic

unfoldable pub show_thread : Call → Bytes → Option Thread.Node → Act (Unit {0})
unfolding compose Thread.view
show_thread c id_str none = render_page c [] (λ cd. Http.thread cd false id_str empty_thread)
show_thread c id_str (some tree) = do
  lh ← get_handle c
  let t = (Thread.view (compose c lh) 0 tree empty_thread).1
  render_page c (topic_of t.root) (λ cd. Http.thread cd true id_str t)

unfoldable pub handle_thread : Call → Act (Unit {0})
unfolding show_thread list_thread
handle_thread c = do
  require_count c 1
  tid ← parse_id c (c.request.query (codes "id"))
  r ← use_search c (λ lh. list_thread c.env lh c.fuel tid)
  node ← or_panic r
  show_thread c (c.request.query (codes "id")) node

unfoldable pub handle_user : Call → Act (Unit {0})
unfolding get_user assign_user
handle_user c = do
  require_count c 1
  uid ← parse_id c (c.request.query (codes "id"))
  lh ← get_handle c
  u ← or_not_found (get_user c.env lh.storage.db uid)
  render_page c [] (λ cd. Http.user cd (assign_user c.env c.lib u))

-- The operations on what the query names, or none for a type that is unknown.
unfoldable pub operations_of :
    Call → LoginHandle → Bytes → EntityId → Option (Result (List Operation))
unfolding get_operations_on_user get_operations_on_message
operations_of c lh typ id =
    if bytes_eq typ (codes "user")
    then some (get_operations_on_user c.env lh.storage.db id)
    else if bytes_eq typ (codes "msg")
    then some (get_operations_on_message c.env lh.storage.db id)
    else none

-- After `NotFoundHandler` this handler goes on with no operations.
abbrev pub or_empty : Option (Result (List Operation)) → Act (List Operation)
or_empty none = respond bad_request
or_empty (some (ok ops)) = done ops
or_empty (some (err e)) =
    if is_no_such_entity e then reply not_found >> done [] else finish panicked
or_empty (some fatal) = finish ended

unfoldable pub handle_list_operations : Call → Act (Unit {0})
unfolding operations_of assign_operation
handle_list_operations c = do
  require_count c 2
  id ← parse_id c (c.request.query (codes "id"))
  lh ← get_handle c
  ops ← or_empty (operations_of c lh (c.request.query (codes "type")) id)
  render_page c [] (λ cd. Http.oper_list cd (map (assign_operation c.env c.lib lh) ops))

-- An error of the database ends the process in `GetFullHistory`.
abbrev pub full_history : Result (List UserHistory) → Act (List UserHistory)
full_history (ok hs) = done hs
full_history (err e) = finish ended
full_history fatal = finish ended

unfoldable pub handle_peer_history : Call → Act (Unit {0})
unfolding get_full_history assign_history
handle_peer_history c = do
  require_session
  require_count c 0
  lh ← get_handle c
  hh ← full_history (get_full_history c.env lh.profile.db)
  render_page c [] (λ cd. Http.peer_history cd (map (assign_history c.env c.lib) hh))
