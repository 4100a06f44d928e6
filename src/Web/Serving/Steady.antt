-- ===== src/Web/Serving/Steady.antt =====
-- No handler but the one for logging in changes the session.
use dscuss.Prelude.{
  ℕ, ◌≡◌, refl, ◌∙◌, Bool, true, false, List, [], ◌∷◌, Option, none, some, Result, ok, err, fatal,
  Bytes, Outcome, Error,
}
use dscuss.Subs.Topic.{Topic, nil, slice, new_topic}
use dscuss.Entity.{EntityId, Message, Operation, UserHistory}
use dscuss.Thread
use dscuss.Node.{LoginHandle}
use dscuss.Web.Http.{bad_request, Notice, not_made, not_posted, RootView, MessageView, assign_user}
use dscuss.Sqlite.{get_user}
use dscuss.Web.Acting.{Call, Site, Act, done, respond, use_handle, use_search, searched}
use dscuss.Web.Posting.{
  handle_create_thread, handle_reply_thread, show_or_post_reply, post_reply, post_thread,
  post_topic, submit, posted,
}
use dscuss.Web.Moderating.{handle_ban_user, handle_remove_message, operate, perform, Form}
use dscuss.Web.Settings.{
  handle_add_moderator, handle_del_moderator, handle_subscribe, handle_unsubscribe, handle_profile,
  assign_moderators, unescape, tell, logged_in_again, use_relogin, or_nil,
}
use dscuss.Web.Browsing.{
  full_history, handle_board, handle_thread, handle_user, handle_list_operations,
  handle_peer_history, list_messages, show_thread, or_empty,
}
use dscuss.Web.Serving.{
  Route, login, profile, board, thread, create_thread, reply_thread, add_moderator, del_moderator,
  subscribe, unsubscribe, user, remove_message, ban_user, list_operations, peer_history, handler,
}
use dscuss.Web.Serving.Along.{
  site_of, Overlooks, Along, bind_lem, seq_lem, done_lem, finish_lem, reply_lem, respond_lem,
  require_lem, require_session_lem, or_panic_lem, or_bad_request_lem, or_not_found_lem,
  or_running_lem, get_handle_lem, parse_id_lem, if_lem, render_page_lem,
}

abbrev pub is_login : Route → Bool
is_login login = true
is_login _ = false

abbrev pub Steady : Site → Site → Type 0
Steady s t = t.session ≡ s.session

laws : Overlooks Steady
laws = record { of_same = λ s t p e. e; trans = λ s t u a b. b ∙ a }

module _ (c : Call) where
  use_handle-Steady :
      {A : Type 0} (f : LoginHandle → A × LoginHandle) → Along Steady (use_handle c f)
  unfolding use_handle
  use_handle-Steady f = record { apply = λ s. refl }

  searched-Steady :
      {A : Type 0} (s : Site) (o : Option (A × LoginHandle))
      → (site_of (searched c s o)).session ≡ s.session
  unfolding searched
  searched-Steady s none = refl
  searched-Steady s (some (a, h)) = refl

  use_search-Steady :
      {A : Type 0} (f : LoginHandle → Option (A × LoginHandle)) → Along Steady (use_search c f)
  unfolding use_search
  use_search-Steady f = record { apply = λ s. searched-Steady s _ }

  use_relogin-Steady : Along Steady (use_relogin c)
  unfolding use_relogin
  use_relogin-Steady = record { apply = λ s. refl }

  ruleset steps = (
    seq_lem, bind_lem, done_lem, finish_lem, reply_lem, respond_lem, require_lem,
    require_session_lem, or_panic_lem, or_bad_request_lem, or_not_found_lem, or_running_lem,
    get_handle_lem, parse_id_lem, if_lem, render_page_lem, use_handle-Steady, use_search-Steady,
    use_relogin-Steady,
  )

  abbrev Shown : (Notice → Act (Unit {0})) → Type 0
  Shown form = (n : Notice) → Along Steady (form n)

  posted-Steady :
      (form : Notice → Act (Unit {0})) (url : Bytes) (r : Result (Unit {0}))
      → Shown form
      → Along Steady (posted form url r)
  posted-Steady form url (ok u) p = search (steps, laws)
  posted-Steady form url (err e) p = p (not_posted e)
  posted-Steady form url fatal p = search (steps, laws)

  submit-Steady :
      (form : Notice → Act (Unit {0})) (url : Bytes) (r : Result Message)
      → Shown form
      → Along Steady (submit c form url r)
  unfolding submit
  submit-Steady form url (ok m) p =
      bind_lem laws (use_handle-Steady _) (λ r. posted-Steady form url r p)
  submit-Steady form url (err e) p = p (not_made e)
  submit-Steady form url fatal p = search (steps, laws)

  post_topic-Steady : (topic : Bytes) (r : Result Topic) → Along Steady (post_topic c topic r)
  unfolding post_topic
  post_topic-Steady topic (ok t) = search (steps, laws, submit-Steady) depth 16
  post_topic-Steady topic (err e) = search (steps, laws)
  post_topic-Steady topic fatal = search (steps, laws)

  post_thread-Steady : (topic : Bytes) → Along Steady (post_thread c topic)
  unfolding post_thread
  post_thread-Steady topic = post_topic-Steady topic (new_topic topic)

  create_thread-Steady : Along Steady (handle_create_thread c)
  unfolding handle_create_thread
  create_thread-Steady = search (steps, laws, post_thread-Steady) depth 16

  post_reply-Steady :
      (rm : RootView) (pm : MessageView) (b : Bool) (pid : EntityId)
      → Along Steady (post_reply c rm pm b pid)
  unfolding post_reply
  post_reply-Steady rm pm b pid = search (steps, laws, submit-Steady) depth 16

  show_reply-Steady :
      (pid : EntityId) (m root : Message) → Along Steady (show_or_post_reply c pid m root)
  unfolding show_or_post_reply
  show_reply-Steady pid m root = search (steps, laws, post_reply-Steady) depth 14

  reply_thread-Steady : Along Steady (handle_reply_thread c)
  unfolding handle_reply_thread
  reply_thread-Steady = search (steps, laws, show_reply-Steady) depth 18

  perform-Steady : (typ : ℕ) (tid : EntityId) (url : Bytes) → Along Steady (perform c typ tid url)
  unfolding perform
  perform-Steady typ tid url = search (steps, laws) depth 14

  operate-Steady :
      (typ : ℕ) (tid : EntityId) (url : Bytes) (form : Form)
      → ((r m : Bytes) (n : Notice) → Along Steady (form r m n))
      → Along Steady (operate c typ tid url form)
  unfolding operate
  operate-Steady typ tid url form shows = search (steps, laws, perform-Steady, shows) depth 14

  ban_user-Steady : Along Steady (handle_ban_user c)
  unfolding handle_ban_user
  ban_user-Steady = search (steps, laws, operate-Steady) depth 16 fits 20000

  remove_message-Steady : Along Steady (handle_remove_message c)
  unfolding handle_remove_message
  remove_message-Steady = search (steps, laws, operate-Steady) depth 16 fits 20000

  unescape-Steady : (s : Bytes) → Along Steady (unescape c s)
  unescape-Steady s = unescaped (c.lib.query_unescape s)
    where
      unescaped :
          (o : Option Bytes)
          → Along Steady
              (elim o as (λ x. Act Bytes) [ none ↦ respond bad_request | some u ↦ done u ])
      unescaped none = search (steps, laws)
      unescaped (some u) = search (steps, laws)

  tell-Steady : (is_told : Error → Bool) (r : Outcome) → Along Steady (tell is_told r)
  tell-Steady is_told (ok u) = search (steps, laws)
  tell-Steady is_told (err e) = search (steps, laws)
  tell-Steady is_told fatal = search (steps, laws)

  add_moderator-Steady : Along Steady (handle_add_moderator c)
  unfolding handle_add_moderator
  add_moderator-Steady = search (steps, laws, unescape-Steady, tell-Steady) depth 18 fits 20000

  del_moderator-Steady : Along Steady (handle_del_moderator c)
  unfolding handle_del_moderator
  del_moderator-Steady = search (steps, laws) depth 18

  again-Steady : Along Steady (logged_in_again c)
  unfolding logged_in_again
  again-Steady = search (steps, laws) depth 14

  subscribe-Steady : Along Steady (handle_subscribe c)
  unfolding handle_subscribe
  subscribe-Steady =
      search (steps, laws, unescape-Steady, tell-Steady, again-Steady) depth 18 fits 20000

  or_nil-Steady : (r : Result Topic) → Along Steady (or_nil r)
  or_nil-Steady (ok nil) = search (steps, laws)
  or_nil-Steady (ok (slice ts)) = search (steps, laws)
  or_nil-Steady (err e) = search (steps, laws)
  or_nil-Steady fatal = search (steps, laws)

  unsubscribe-Steady : Along Steady (handle_unsubscribe c)
  unfolding handle_unsubscribe
  unsubscribe-Steady =
      search (steps, laws, or_nil-Steady, tell-Steady, again-Steady) depth 18 fits 20000

  assign_moderators-Steady : (ms : List EntityId) → Along Steady (assign_moderators c ms)
  unfolding assign_moderators
  assign_moderators-Steady [] = search (steps, laws)
  assign_moderators-Steady (m ∷ ms) = bind_lem laws (get_handle_lem laws c) (λ lh.
      bind_lem laws (or_panic_lem laws (get_user c.env lh.storage.db m)) (λ u.
        bind_lem laws (assign_moderators-Steady ms)
          (λ us. done_lem laws (assign_user c.env c.lib u ∷ us))))

  profile-Steady : Along Steady (handle_profile c)
  unfolding handle_profile
  profile-Steady = search (steps, laws, assign_moderators-Steady) depth 18

  list_messages-Steady : (t : Topic) → Along Steady (list_messages c t)
  unfolding list_messages
  list_messages-Steady nil = use_handle-Steady _
  list_messages-Steady (slice ts) = use_handle-Steady _

  board-Steady : Along Steady (handle_board c)
  unfolding handle_board
  board-Steady = search (steps, laws, list_messages-Steady) depth 14

  show_thread-Steady : (s : Bytes) (t : Option Thread.Node) → Along Steady (show_thread c s t)
  unfolding show_thread
  show_thread-Steady s none = search (steps, laws) depth 14
  show_thread-Steady s (some tree) = search (steps, laws) depth 14

  thread-Steady : Along Steady (handle_thread c)
  unfolding handle_thread
  thread-Steady = search (steps, laws, show_thread-Steady) depth 14

  user-Steady : Along Steady (handle_user c)
  unfolding handle_user
  user-Steady = search (steps, laws) depth 14

  or_empty-Steady : (o : Option (Result (List Operation))) → Along Steady (or_empty o)
  or_empty-Steady none = search (steps, laws)
  or_empty-Steady (some (ok ops)) = search (steps, laws)
  or_empty-Steady (some (err e)) = search (steps, laws)
  or_empty-Steady (some fatal) = search (steps, laws)

  list_operations-Steady : Along Steady (handle_list_operations c)
  unfolding handle_list_operations
  list_operations-Steady = search (steps, laws, or_empty-Steady) depth 14

  full_history-Steady : (r : Result (List UserHistory)) → Along Steady (full_history r)
  full_history-Steady (ok hs) = search (steps, laws)
  full_history-Steady (err e) = search (steps, laws)
  full_history-Steady fatal = search (steps, laws)

  peer_history-Steady : Along Steady (handle_peer_history c)
  unfolding handle_peer_history
  peer_history-Steady = search (steps, laws, full_history-Steady) depth 14

  pub handler-Steady :
      (route : Route) (s : Site)
      → is_login route ≡ false
      → (site_of (handler route c s)).session ≡ s.session
  unfolding handler
  handler-Steady login s h = absurd (cc)
  handler-Steady profile s h = profile-Steady.apply s
  handler-Steady board s h = board-Steady.apply s
  handler-Steady thread s h = thread-Steady.apply s
  handler-Steady create_thread s h = create_thread-Steady.apply s
  handler-Steady reply_thread s h = reply_thread-Steady.apply s
  handler-Steady add_moderator s h = add_moderator-Steady.apply s
  handler-Steady del_moderator s h = del_moderator-Steady.apply s
  handler-Steady subscribe s h = subscribe-Steady.apply s
  handler-Steady unsubscribe s h = unsubscribe-Steady.apply s
  handler-Steady user s h = user-Steady.apply s
  handler-Steady remove_message s h = remove_message-Steady.apply s
  handler-Steady ban_user s h = ban_user-Steady.apply s
  handler-Steady list_operations s h = list_operations-Steady.apply s
  handler-Steady peer_history s h = peer_history-Steady.apply s
