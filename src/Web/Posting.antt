-- ===== src/Web/Posting.antt =====
-- cmd/dscuss-web/controller/handle_create_thread.go, handle_reply_thread.go.
use dscuss.Prelude.{
  ℕ, ltb, length, ◌||◌, not, Bytes, codes, Bool, [], ◌++◌, if◌then◌else◌, Result, ok, err, fatal,
}
use dscuss.Subs.Topic.{Topic, new_topic}
use dscuss.Entity.{EntityId, Message, Entity}
use dscuss.Entity.Messages.{max_message_subject_len, max_message_text_len, is_reply}
use dscuss.Sqlite.MessageTable.{get_message}
use dscuss.Storage.{get_root}
use dscuss.Node.{new_thread, new_reply, post_entity}
use dscuss.Web.Http.{
  is_post, is_nonempty, redirect, thread_create, thread_reply, Notice, no_notice, bad_subject,
  bad_text, bad_topic, not_made, not_posted, RootView, MessageView, assign_root, assign_message,
}
use dscuss.Web.Acting.{
  Call, Act, ◌>>=◌, ◌>>◌, ended, finish, respond, require_session, require_at_most_one,
  require_escaped, parse_id, get_handle, use_handle, use_search, or_panic, or_not_found, or_running,
  render_page,
}

abbrev pub is_unacceptable : ℕ → Bytes → Bool
is_unacceptable max s = not (is_nonempty s) || ltb max (length s)

-- Posting what was made; an error is shown on the form.
abbrev pub posted : (Notice → Act (Unit {0})) → Bytes → Result (Unit {0}) → Act (Unit {0})
posted form url (ok u) = respond (redirect url)
posted form url (err e) = form (not_posted e)
posted form url fatal = finish ended

unfoldable pub submit : Call → (Notice → Act (Unit {0})) → Bytes → Result Message → Act (Unit {0})
unfolding post_entity
submit c form url (ok m) = do
  r ← use_handle c (λ lh. post_entity lh (Entity.message m) c.stored)
  posted form url r
submit c form url (err e) = form (not_made e)
submit c form url fatal = finish ended

abbrev pub thread_form : Call → Bytes → Bytes → Bytes → Notice → Act (Unit {0})
thread_form c topic subj text n = render_page c topic (λ cd. thread_create cd subj text n)

unfoldable pub post_topic : Call → Bytes → Result Topic → Act (Unit {0})
unfolding submit new_thread
post_topic c topic (ok t) =
    let subj = c.request.post_form_value (codes "subject") in
    let text = c.request.post_form_value (codes "text") in
    if is_unacceptable max_message_subject_len subj
    then thread_form c topic subj text bad_subject
    else if is_unacceptable max_message_text_len text
    then thread_form c topic subj text bad_text
    else do
      r ← use_handle c (λ lh. new_thread c.env lh c.now subj text t)
      submit c (thread_form c topic subj text) (codes "/board") r
post_topic c topic (err e) = thread_form c topic [] [] (bad_topic e)
post_topic c topic fatal = finish ended

unfoldable pub post_thread : Call → Bytes → Act (Unit {0})
unfolding post_topic new_topic
post_thread c topic = post_topic c topic (new_topic topic)

unfoldable pub handle_create_thread : Call → Act (Unit {0})
unfolding post_thread
handle_create_thread c =
    let topic = c.request.form_value (codes "topic") in
    do
      require_at_most_one c
      require_session
      require_escaped c topic
      if is_post c.request then post_thread c topic else thread_form c topic [] [] no_notice

abbrev pub reply_form :
    Call → RootView → MessageView → Bool → Bytes → Bytes → Notice → Act (Unit {0})
reply_form c rm pm show_subj subj text n =
    render_page c rm.topic (λ cd. thread_reply cd rm pm subj text show_subj n)

unfoldable pub post_reply : Call → RootView → MessageView → Bool → EntityId → Act (Unit {0})
unfolding submit new_reply
post_reply c rm pm show_subj pid =
    let subj = c.request.post_form_value (codes "subject") in
    let text = c.request.post_form_value (codes "text") in
    let form = reply_form c rm pm show_subj subj text in
    if is_unacceptable max_message_subject_len subj
    then form bad_subject
    else if is_unacceptable max_message_text_len text
    then form bad_text
    else do
      r ← use_search c (λ lh. new_reply c.env lh c.fuel c.now subj text pid)
      submit c form (codes "/thread?id=" ++ c.lib.query_escape rm.message.id) r

unfoldable pub show_or_post_reply : Call → EntityId → Message → Message → Act (Unit {0})
unfolding post_reply assign_message assign_root is_reply
show_or_post_reply c pid m root = do
  lh ← get_handle c
  let pm = assign_message c.env c.lib lh m
  let rm = assign_root c.env c.lib lh root
  if is_post c.request
      then post_reply c rm pm (is_reply m) pid
      else reply_form c rm pm (is_reply m) [] [] no_notice

unfoldable pub handle_reply_thread : Call → Act (Unit {0})
unfolding show_or_post_reply get_message get_root
handle_reply_thread c = do
  require_at_most_one c
  require_session
  require_escaped c (c.request.form_value (codes "id"))
  pid ← parse_id c (c.request.form_value (codes "id"))
  lh ← get_handle c
  m ← or_not_found (get_message c.env lh.storage.db pid)
  found ← or_running (get_root c.env lh.storage.db c.fuel m)
  root ← or_panic found
  show_or_post_reply c pid m root
