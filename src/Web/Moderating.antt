-- ===== src/Web/Moderating.antt =====
-- cmd/dscuss-web/controller/handle_ban_user.go, handle_remove_message.go.
use dscuss.Prelude.{ℕ, ltb, length, Bytes, codes, [], ◌++◌, if◌then◌else◌}
use dscuss.Subs.Topic.{to_string}
use dscuss.Entity.{EntityId, Entity}
use dscuss.Entity.Operations.{parse_reason, type_remove_message, type_ban_user}
use dscuss.Sqlite.{get_user}
use dscuss.Sqlite.MessageTable.{get_message}
use dscuss.Storage.{get_root}
use dscuss.Node.{new_operation, post_entity}
use dscuss.Web.Http.{
  is_post, redirect, oper_ban, oper_del, Notice, no_notice, comment_too_long, assign_user,
  assign_message,
}
use dscuss.Web.Acting.{
  Call, Act, ◌>>=◌, ◌>>◌, respond, require_session, require_at_most_one, require_escaped, parse_id,
  get_handle, use_handle, or_panic, or_not_found, or_bad_request, or_running, render_page,
}

abbrev pub max_operation_comment_len : ℕ
max_operation_comment_len = 1024

-- The form of an operation: the reason, the comment and a message.
abbrev pub Form : Type 0
Form = Bytes → Bytes → Notice → Act (Unit {0})

-- What both handlers do with a posted form.
unfoldable pub perform : Call → ℕ → EntityId → Bytes → Act (Unit {0})
unfolding new_operation post_entity parse_reason
perform c typ tid url = do
  reason ← or_bad_request (parse_reason (c.request.post_form_value (codes "reason")))
  made ← use_handle c (λ lh.
      new_operation c.env lh c.now typ reason (c.request.post_form_value (codes "comment")) tid)
  oper ← or_panic made
  posted ← use_handle c (λ lh. post_entity lh (Entity.operation oper) c.stored)
  u ← or_panic posted
  respond (redirect url)

unfoldable pub operate : Call → ℕ → EntityId → Bytes → Form → Act (Unit {0})
unfolding perform
operate c typ tid url form =
    let reason = c.request.post_form_value (codes "reason") in
    let comment = c.request.post_form_value (codes "comment") in
    if is_post c.request
    then (if ltb max_operation_comment_len (length comment)
        then form reason comment comment_too_long
        else perform c typ tid url)
    else form [] [] no_notice

unfoldable pub handle_ban_user : Call → Act (Unit {0})
unfolding operate get_user assign_user
handle_ban_user c = do
  require_at_most_one c
  require_session
  require_escaped c (c.request.form_value (codes "id"))
  tid ← parse_id c (c.request.form_value (codes "id"))
  lh ← get_handle c
  u ← or_not_found (get_user c.env lh.storage.db tid)
  operate c type_ban_user tid (codes "/board") (λ reason comment n.
      render_page c [] (λ cd. oper_ban cd (assign_user c.env c.lib u) reason comment n))

unfoldable pub handle_remove_message : Call → Act (Unit {0})
unfolding operate get_message get_root assign_message
handle_remove_message c = do
  require_at_most_one c
  require_session
  require_escaped c (c.request.form_value (codes "id"))
  tid ← parse_id c (c.request.form_value (codes "id"))
  lh ← get_handle c
  m ← or_not_found (get_message c.env lh.storage.db tid)
  found ← or_running (get_root c.env lh.storage.db c.fuel m)
  root ← or_panic found
  operate c type_remove_message tid
      (codes "/thread?id=" ++ c.lib.query_escape (c.env.base64 root.id))
      (λ reason comment n.
        render_page c (to_string root.topic)
          (λ cd. oper_del cd (assign_message c.env c.lib lh m) reason comment n))
