-- ===== src/Web/Entering.antt =====
-- cmd/dscuss-web/controller/handle_login.go.
use dscuss.Prelude.{
  ℕ, ltb, ◌==◌, ◌||◌, length, Bytes, codes, Bool, true, false, [], ◌∷◌, if◌then◌else◌, Option, none,
  some,
}
use dscuss.Entity.Users.{max_username_len}
use dscuss.Web.Sessions.{Session, authenticate}
use dscuss.Web.Http.{is_post, redirect, Notice, no_notice, credentials_too_long, wrong_credentials}
use dscuss.Web.Http
use dscuss.Web.Acting.{
  Call, Act, ◌>>=◌, ◌>>◌, respond, require_at_most_one, get_session, set_session, get_handle,
  render_page,
}

abbrev pub max_password_len : ℕ
max_password_len = 64

-- A URL that does not begin with a slash is replaced by "/".
abbrev pub local_or_root : Bytes → Bytes
local_or_root [] = codes "/"
local_or_root (ch ∷ url) = if ch == b'/' then ch ∷ url else codes "/"

abbrev pub unescaped_or_root : Option Bytes → Bytes
unescaped_or_root none = codes "/"
unescaped_or_root (some url) = local_or_root url

unfoldable pub redirect_url : Call → Bytes
redirect_url c =
    let url = c.request.form_value (codes "next") in
    if is_post c.request then unescaped_or_root (c.lib.query_unescape url) else local_or_root url

unfoldable pub login_page : Call → Notice → Act (Unit {0})
unfolding redirect_url
login_page c n = render_page c [] (λ cd. Http.login cd (c.lib.query_escape (redirect_url c)) n)

-- After `Authenticate`, which may have changed the session.
unfoldable pub entered : Call → Bool × Session → Act (Unit {0})
unfolding login_page redirect_url
entered c (true, t) = set_session t >> respond (redirect (redirect_url c))
entered c (false, t) = set_session t >> login_page c wrong_credentials

unfoldable pub check_login : Call → Bytes → Bytes → Act (Unit {0})
unfolding entered authenticate
check_login c username pass = do
  s ← get_session
  lh ← get_handle c
  entered c (authenticate lh.user.nickname c.password s username pass)

unfoldable pub try_login : Call → Act (Unit {0})
unfolding check_login
try_login c =
    let username = c.request.post_form_value (codes "username") in
    let pass = c.request.post_form_value (codes "password") in
    if ltb max_username_len (length username) || ltb max_password_len (length pass)
    then login_page c credentials_too_long
    else check_login c username pass

unfoldable pub handle_login : Call → Act (Unit {0})
unfolding try_login redirect_url
handle_login c = do
  require_at_most_one c
  s ← get_session
  if s.is_authenticated
      then respond (redirect (redirect_url c))
      else if is_post c.request
      then try_login c
      else login_page c no_notice
