-- ===== src/Web/Serving.antt =====
-- cmd/dscuss-web/controller/controller.go (makeHandler), init_handlers.go, and the handler for
-- logging out. A request is served in one step.
pub mod Along
pub mod Reading
pub mod Writing
pub mod Guarded
pub mod Steady
pub mod Authenticating
pub mod LoggingIn
pub mod Forging
use dscuss.Prelude.{
  ℕ, ◌&&◌, not, Bytes, bytes_eq, codes, Bool, true, false, List, [], ◌∷◌, ◌++◌, if◌then◌else◌,
  Option, Result, ok, err, fatal,
}
use dscuss.Node.Login.{Process, is_valid}
use dscuss.Web.Sessions.{Session, SessionPool, Fresh, Open, open_session, update, close_session}
use dscuss.Web.Http.{
  Request, is_post, Reply, cookies, forbidden, internal_error, not_found, redirect,
}
use dscuss.Web.Acting.{Call, Act, Site, Flow, returned, panicked, ended, running, Step, next, stop}
use dscuss.Web.Posting.{handle_create_thread, handle_reply_thread}
use dscuss.Web.Moderating.{handle_ban_user, handle_remove_message}
use dscuss.Web.Settings.{
  handle_add_moderator, handle_del_moderator, handle_subscribe, handle_unsubscribe, handle_profile,
}
use dscuss.Web.Browsing.{
  handle_board, handle_thread, handle_user, handle_list_operations, handle_peer_history,
}
use dscuss.Web.Entering.{handle_login}

-- The handlers that `InitHandlers` wraps; the list of the connected peers is left out.
pub data Route : Type 0 where
  login profile board thread create_thread reply_thread add_moderator del_moderator : Route
  subscribe unsubscribe user remove_message ban_user list_operations peer_history : Route

unfoldable pub handler : Route → Call → Act (Unit {0})
unfolding handle_login handle_profile handle_board handle_thread
handler login = handle_login
handler profile = handle_profile
handler board = handle_board
handler thread = handle_thread
handler create_thread = handle_create_thread
handler reply_thread = handle_reply_thread
handler add_moderator = handle_add_moderator
handler del_moderator = handle_del_moderator
handler subscribe = handle_subscribe
handler unsubscribe = handle_unsubscribe
handler user = handle_user
handler remove_message = handle_remove_message
handler ban_user = handle_ban_user
handler list_operations = handle_list_operations
handler peer_history = handle_peer_history

pub record Served : Type 0 where
  pub flow : Flow
  pub process : Process
  pub pool : SessionPool
  pub replies : List Reply

-- The end of a handler. `InternalServerErrorHandler` recovers from a panic.
abbrev pub recovered : Flow → List Reply → List Reply
recovered panicked rs = rs ++ internal_error ∷ []
recovered _ rs = rs

unfoldable pub close : SessionPool → Step (Unit {0}) → Served
unfolding update
close ss (next u s) = record {
  flow = returned;
  process = s.process;
  pool = update ss s.session;
  replies = s.replies;
}
close ss (stop fl s) = record {
  flow = fl;
  process = s.process;
  pool = update ss s.session;
  replies = recovered fl s.replies;
}

-- The token of a posted form is that of the session.
abbrev pub has_token : Request → Session → Bool
has_token r s = bytes_eq (r.post_form_value (codes "csrf")) s.csrf_token

unfoldable pub with_session : Route → Call → Process → SessionPool → Result Open → Served
unfolding close handler
with_session route c p ss (ok o) =
    if is_post c.request && not (has_token c.request o.session)
    then record {
      flow = returned;
      process = p;
      pool = o.pool;
      replies = cookies o.cookies ∷ forbidden ∷ [];
    }
    else close o.pool (
        handler route c
          (record { process = p; session = o.session; replies = cookies o.cookies ∷ [] }))
with_session route c p ss (err e) = record { flow = ended; process = p; pool = ss; replies = [] }
with_session route c p ss fatal = record { flow = ended; process = p; pool = ss; replies = [] }

-- `makeHandler`, of a handle that is not nil.
unfoldable pub serve : Route → Call → Fresh → Process → SessionPool → Served
unfolding with_session open_session is_valid
serve route c f p ss =
    if not (is_valid p c.lh)
    then record { flow = panicked; process = p; pool = ss; replies = internal_error ∷ [] }
    else with_session route c p ss (open_session c.request.cookie f ss)

-- `LogoutHandler`
unfoldable pub logout : Request → SessionPool → List Reply × SessionPool
unfolding close_session
logout r ss =
    if bytes_eq r.path (codes "/logout")
    then (redirect (codes "/") ∷ [], close_session r.cookie ss)
    else (not_found ∷ [], ss)
