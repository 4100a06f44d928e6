-- ===== src/Web/Settings.antt =====
-- cmd/dscuss-web/controller/handle_profile.go: the moderators and the subscriptions of the owner.
use dscuss.Prelude.{
  Bytes, codes, Bool, true, false, List, [], ◌∷◌, if◌then◌else◌, none, some, Result, Outcome, ok,
  err, fatal, Error, already_moderator, already_subscribed,
}
use dscuss.Subs.Topic.{Topic, nil, slice, new_topic}
use dscuss.Subs.Subscriptions.{string_slice}
use dscuss.Entity.{EntityId}
use dscuss.Sqlite.{get_user}
use dscuss.Owner.Profile.{
  get_moderators, remove_moderator, put_subscription, remove_subscription, get_subscriptions,
}
use dscuss.Node.{LoginHandle, add_moderator, with_profile}
use dscuss.Node.Login.{relogin}
use dscuss.Web.Http.{is_post, bad_request, redirect, profile, UserView, assign_user}
use dscuss.Web.Acting.{
  Call, Act, ◌>>=◌, ◌>>◌, next, ended, panicked, done, finish, reply, respond, require_session,
  require_count, parse_id, get_handle, use_handle, or_panic, or_bad_request, render_page,
}

-- The value unescaped, which is the one used here.
abbrev pub unescape : Call → Bytes → Act Bytes
unescape c s = elim (c.lib.query_unescape s) [ none ↦ respond bad_request | some u ↦ done u ]

-- `Relogin` of the handle.
unfoldable pub use_relogin : Call → Act Outcome
unfolding relogin
use_relogin c s =
    let (r, p) = relogin c.codec c.env c.configured s.process c.lh c.peers in
    next r (record s { process = p })

abbrev pub is_already_moderator : Error → Bool
is_already_moderator already_moderator = true
is_already_moderator _ = false

abbrev pub is_already_subscribed : Error → Bool
is_already_subscribed already_subscribed = true
is_already_subscribed _ = false

-- An error that the user is told of; the handler goes on after it.
abbrev pub tell : (Error → Bool) → Outcome → Act (Unit {0})
tell is_told (ok u) = done tt
tell is_told (err e) = if is_told e then reply bad_request else finish panicked
tell is_told fatal = finish ended

unfoldable pub handle_add_moderator : Call → Act (Unit {0})
unfolding add_moderator
handle_add_moderator c = do
  require_count c 0
  require_session
  id_str ← unescape c (c.request.form_value (codes "id"))
  id ← parse_id c id_str
  r ← use_handle c (λ lh. add_moderator lh id)
  tell is_already_moderator r
  respond (redirect (codes "/profile"))

unfoldable pub handle_del_moderator : Call → Act (Unit {0})
unfolding remove_moderator
handle_del_moderator c = do
  require_count c 1
  require_session
  mid ← parse_id c (c.request.query (codes "id"))
  r ← use_handle c (λ lh. with_profile lh (remove_moderator lh.profile mid))
  u ← or_panic r
  respond (redirect (codes "/profile"))

unfoldable pub logged_in_again : Call → Act (Unit {0})
unfolding use_relogin
logged_in_again c = do r ← use_relogin c; u ← or_panic r; respond (redirect (codes "/profile"))

unfoldable pub handle_subscribe : Call → Act (Unit {0})
unfolding logged_in_again new_topic put_subscription
handle_subscribe c = do
  require_count c 0
  require_session
  topic_str ← unescape c (c.request.form_value (codes "topic"))
  topic ← or_bad_request (new_topic topic_str)
  r ← use_handle c (λ lh. with_profile lh (put_subscription lh.profile topic))
  tell is_already_subscribed r
  logged_in_again c

-- A topic that is nil comes from an empty string and with an error alike.
abbrev pub or_nil : Result Topic → Act Topic
or_nil (ok nil) = respond bad_request
or_nil (ok (slice ts)) = done (slice ts)
or_nil (err e) = respond bad_request
or_nil fatal = finish ended

unfoldable pub handle_unsubscribe : Call → Act (Unit {0})
unfolding logged_in_again new_topic remove_subscription
handle_unsubscribe c = do
  require_count c 1
  require_session
  topic ← or_nil (new_topic (c.request.query (codes "topic")))
  r ← use_handle c (λ lh. with_profile lh (remove_subscription lh.profile topic))
  tell is_already_subscribed r
  logged_in_again c

-- The moderators, whose users must be known.
unfoldable pub assign_moderators : Call → List EntityId → Act (List UserView)
unfolding get_user assign_user
assign_moderators c [] = done []
assign_moderators c (m ∷ ms) = do
  lh ← get_handle c
  u ← or_panic (get_user c.env lh.storage.db m)
  us ← assign_moderators c ms
  done (assign_user c.env c.lib u ∷ us)

unfoldable pub list_moderators : LoginHandle → List EntityId × LoginHandle
unfolding get_moderators
list_moderators lh = let (ms, p) = get_moderators lh.profile in (ms, record lh { profile = p })

-- After the redirection of a posted form the page is rendered all the same.
unfoldable pub handle_profile : Call → Act (Unit {0})
unfolding assign_moderators list_moderators get_subscriptions string_slice
handle_profile c = do
  require_session
  require_count c 0
  subs ←
      use_handle c
        (λ lh. let (r, p) = get_subscriptions lh.profile in (r, record lh { profile = p }))
  ss ← or_panic subs
  mm ← use_handle c list_moderators
  moders ← assign_moderators c mm
  if is_post c.request then reply (redirect (codes "/board")) else done tt
  render_page c [] (λ cd. profile cd moders (string_slice ss))
