-- ===== src/Web/Serving/Writing.antt =====
-- When a handler changes data: for an authenticated session only, and a form only when it is posted.
use dscuss.Prelude.{ℕ, ◌≡◌, Bool, true, false, ◌⊎◌, inl, inr, [], Bool-cases, if◌then◌else◌, Bytes}
use dscuss.Web.Sessions.{Session}
use dscuss.Entity.{EntityId, Message}
use dscuss.Web.Http.{Reply, is_post, Notice, no_notice}
use dscuss.Web.Acting.{Call, Site, Act, ◌>>◌, require, require_session, set_session}
use dscuss.Web.Posting.{handle_create_thread, handle_reply_thread, show_or_post_reply}
use dscuss.Web.Moderating.{handle_ban_user, handle_remove_message, operate, Form}
use dscuss.Web.Settings.{
  handle_add_moderator, handle_del_moderator, handle_subscribe, handle_unsubscribe,
}
use dscuss.Web.Entering.{handle_login, try_login, check_login, login_page, entered}
use dscuss.Web.Serving.{
  Route, login, profile, board, thread, create_thread, reply_thread, add_moderator, del_moderator,
  subscribe, unsubscribe, user, remove_message, ban_user, list_operations, peer_history, handler,
}
use dscuss.Web.Serving.Along.{
  Overlooks, Along, site_of, bind_lem, seq_lem, done_lem, respond_lem, require_lem,
  require_session_lem, or_panic_lem, or_bad_request_lem, or_not_found_lem, or_running_lem,
  get_handle_lem, get_session_lem, parse_id_lem, if_lem, render_page_lem,
}
use dscuss.Web.Serving.Reading.{
  Quiet, Quiet-Overlooks, SameData, SameData-refl, handle_user-Quiet, handle_board-Quiet,
  handle_thread-Quiet, handle_list_operations-Quiet, handle_peer_history-Quiet,
  handle_profile-Quiet,
}

-- A handler that first tests the query and then the session.
shut_lem :
    {A : Type 0} (lh : ℕ) (b : Bool) (r : Reply) (k : Act A) (s : Site)
    → s.session.is_authenticated ≡ false
    → SameData lh s.process (site_of ((require b r >> (require_session >> k)) s)).process
shut_lem lh true r k s h = rw h (SameData-refl lh s.process)
shut_lem lh false r k s h = SameData-refl lh s.process

module _ (c : Call) where
  abbrev laws : Overlooks (Quiet c.lh)
  laws = Quiet-Overlooks c.lh

  else_lem :
      {A : Type 0} {b : Bool} (x : Act A) {y : Act A}
      → b ≡ false
      → Along (Quiet c.lh) y
      → Along (Quiet c.lh) (if b then x else y)
  else_lem x e p = rw e p

  ruleset steps = (
    seq_lem, bind_lem, done_lem, respond_lem, require_lem, require_session_lem, or_panic_lem,
    or_bad_request_lem, or_not_found_lem, or_running_lem, get_handle_lem, get_session_lem,
    parse_id_lem, render_page_lem,
  )

  -- A form that is not posted is only shown.
  module _ (not_posted : is_post c.request ≡ false) where
    create_thread-shown : Along (Quiet c.lh) (handle_create_thread c)
    unfolding handle_create_thread
    create_thread-shown = search (steps, laws, else_lem, not_posted) depth 14

    show_reply-shown :
        (pid : EntityId) (m root : Message) → Along (Quiet c.lh) (show_or_post_reply c pid m root)
    unfolding show_or_post_reply
    show_reply-shown pid m root = search (steps, laws, else_lem, not_posted) depth 14

    reply_thread-shown : Along (Quiet c.lh) (handle_reply_thread c)
    unfolding handle_reply_thread
    reply_thread-shown = search (steps, laws, show_reply-shown) depth 16

    operate-shown :
        (typ : ℕ) (tid : EntityId) (url : Bytes) (form : Form)
        → ((r m : Bytes) (n : Notice) → Along (Quiet c.lh) (form r m n))
        → Along (Quiet c.lh) (operate c typ tid url form)
    unfolding operate
    operate-shown typ tid url form shows = else_lem _ not_posted (shows [] [] no_notice)

    ban_user-shown : Along (Quiet c.lh) (handle_ban_user c)
    unfolding handle_ban_user
    ban_user-shown = search (steps, laws, operate-shown) depth 16

    remove_message-shown : Along (Quiet c.lh) (handle_remove_message c)
    unfolding handle_remove_message
    remove_message-shown = search (steps, laws, operate-shown) depth 16 fits 20000

  set_session-Quiet : (t : Session) → Along (Quiet c.lh) (set_session t)
  set_session-Quiet t = record { apply = λ s. SameData-refl c.lh s.process }

  entered-Quiet : (r : Bool × Session) → Along (Quiet c.lh) (entered c r)
  unfolding entered login_page
  entered-Quiet (true, t) = search (steps, laws, set_session-Quiet)
  entered-Quiet (false, t) = search (steps, laws, set_session-Quiet)

  -- Logging in changes the session alone.
  handle_login-Quiet : Along (Quiet c.lh) (handle_login c)
  unfolding handle_login try_login check_login login_page
  handle_login-Quiet = search (steps, laws, if_lem, entered-Quiet) depth 16

-- The forms that make a message or an operation.
abbrev pub is_form : Route → Bool
is_form create_thread = true
is_form reply_thread = true
is_form remove_message = true
is_form ban_user = true
is_form _ = false

abbrev pub IsPermitted : Route → Call → Session → Type 0
IsPermitted route c s =
    (s.is_authenticated ≡ true) × (is_form route ≡ true → is_post c.request ≡ true)

-- What the two lemmas above say of a handler.
guarded :
    (route : Route) (c : Call) (s : Site)
    → (s.session.is_authenticated ≡ false
        → SameData c.lh s.process (site_of (handler route c s)).process)
    → (is_form route ≡ true
        → is_post c.request ≡ false
        → SameData c.lh s.process (site_of (handler route c s)).process)
    → SameData c.lh s.process (site_of (handler route c s)).process ⊎ IsPermitted route c s.session
guarded route c s shut shown = elim (Bool-cases s.session.is_authenticated) [
  | inr no_user ↦ inl (shut no_user)
  | inl known ↦ elim (Bool-cases (is_post c.request)) [
    | inl posted ↦ inr (known, λ f. posted)
    | inr shows ↦ elim (Bool-cases (is_form route)) [
      | inl form ↦ inl (shown form shows)
      | inr other ↦ inr (known, λ f. absurd (cc))
    ]
  ]
]

pub handler-guarded :
    (route : Route) (c : Call) (s : Site)
    → SameData c.lh s.process (site_of (handler route c s)).process ⊎ IsPermitted route c s.session
unfolding handler handle_create_thread handle_reply_thread handle_ban_user handle_remove_message
    handle_add_moderator handle_del_moderator handle_subscribe handle_unsubscribe
handler-guarded login c s = inl ((handle_login-Quiet c).apply s)
handler-guarded profile c s = inl ((handle_profile-Quiet c).apply s)
handler-guarded board c s = inl ((handle_board-Quiet c).apply s)
handler-guarded thread c s = inl ((handle_thread-Quiet c).apply s)
handler-guarded user c s = inl ((handle_user-Quiet c).apply s)
handler-guarded list_operations c s = inl ((handle_list_operations-Quiet c).apply s)
handler-guarded peer_history c s = inl ((handle_peer_history-Quiet c).apply s)
handler-guarded create_thread c s =
    guarded create_thread c s (shut_lem c.lh _ _ _ s) (λ f np. (create_thread-shown c np).apply s)
handler-guarded reply_thread c s =
    guarded reply_thread c s (shut_lem c.lh _ _ _ s) (λ f np. (reply_thread-shown c np).apply s)
handler-guarded remove_message c s =
    guarded remove_message c s (shut_lem c.lh _ _ _ s) (λ f np. (remove_message-shown c np).apply s)
handler-guarded ban_user c s =
    guarded ban_user c s (shut_lem c.lh _ _ _ s) (λ f np. (ban_user-shown c np).apply s)
handler-guarded add_moderator c s =
    guarded add_moderator c s (shut_lem c.lh _ _ _ s) (λ f np. absurd (cc))
handler-guarded del_moderator c s =
    guarded del_moderator c s (shut_lem c.lh _ _ _ s) (λ f np. absurd (cc))
handler-guarded subscribe c s = guarded subscribe c s (shut_lem c.lh _ _ _ s) (λ f np. absurd (cc))
handler-guarded unsubscribe c s =
    guarded unsubscribe c s (shut_lem c.lh _ _ _ s) (λ f np. absurd (cc))
