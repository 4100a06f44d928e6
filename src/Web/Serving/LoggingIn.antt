-- ===== src/Web/Serving/LoggingIn.antt =====
-- Which sessions of the pool are authenticated after a request.
use dscuss.Prelude.{
  ◌≡◌, refl, ap, sym, ◌∙◌, subst, ◌⊎◌, inl, inr, Bool, true, false, not, ◌&&◌, Bool-cases, Result,
  ok, err, fatal, [], ◌∷◌, arith, Bytes, Memᴰ,
}
use dscuss.Node.Login.{Process, is_valid}
use dscuss.Web.Sessions.{Session, SessionPool, Fresh, Open, open_session, update}
use dscuss.Web.Sessions.Knowing.{Known, mem-update, open_session-Opens}
use dscuss.Web.Http.{is_post, cookies}
use dscuss.Web.Acting.{Call, Site, Step, next, stop}
use dscuss.Web.Serving.{Route, login, handler, serve, with_session, close, has_token}
use dscuss.Web.Serving.Along.{site_of}
use dscuss.Web.Serving.Steady.{is_login, handler-Steady}
use dscuss.Web.Serving.Authenticating.{Credentials, Enters, handle_login-Enters}

is_login-login : (route : Route) → is_login route ≡ true → route ≡ login
is_login-login login h = refl
is_login-login _ h = absurd (cc)

login-Enters :
    (route : Route) (c : Call) (s : Site)
    → is_login route ≡ true
    → Enters c s (site_of (handler route c s))
unfolding handler
login-Enters route c s h =
    subst (λ r. Enters c s (site_of (handler r c s))) (sym (is_login-login route h))
      ((handle_login-Enters c).apply s)

token_of : (posted token : Bool) → posted ≡ true → (posted && not token) ≡ false → token ≡ true
token_of posted token p h = ground arith

close-pool :
    (ss : SessionPool) (r : Step (Unit {0})) → (close ss r).pool ≡ update ss (site_of r).session
unfolding close
close-pool ss (next u s) = refl
close-pool ss (stop fl s) = refl

module _ (route : Route) (c : Call) (f : Fresh) (p : Process) (ss : SessionPool) where
  -- A posted form logs the session of the request in, with its token and the owner's credentials.
  pub record LogsIn (id : Bytes) : Type 0 where
    pub entering : is_login route ≡ true
    pub credentials : Credentials c p
    pub opened : Open
    pub opens : open_session c.request.cookie f ss ≡ ok opened
    pub same : id ≡ opened.session.id
    pub token : has_token c.request opened.session ≡ true

  abbrev pub Authenticated : SessionPool → Type 0
  Authenticated qs =
      (t : Session) → Memᴰ t qs → t.is_authenticated ≡ true → Known ss t.id ⊎ LogsIn t.id

  abbrev site : Open → Site
  site o = record { process = p; session = o.session; replies = cookies o.cookies ∷ [] }

  module _ (o : Open) (h : open_session c.request.cookie f ss ≡ ok o)
      (fine : (is_post c.request && not (has_token c.request o.session)) ≡ false) where
    left : Session
    left = (site_of (handler route c (site o))).session

    handled :
        (b : Bool)
        → is_login route ≡ b
        → left.is_authenticated ≡ true
        → Known ss left.id ⊎ LogsIn left.id
    unfolding left
    handled false other a =
        let steady = handler-Steady c route (site o) other in
        inl (
          subst (λ x. Known ss x.id) (sym steady)
            ((open_session-Opens f ss c.request.cookie o h).1
              (sym (ap (λ x. x.is_authenticated) steady) ∙ a)))
    handled true entering a =
        let enters = login-Enters route c (site o) entering in either enters (enters.entered a)
      where
        either :
            Enters c (site o) (site_of (handler route c (site o)))
            → (o.session.is_authenticated ≡ true) ⊎ Credentials c p
            → Known ss left.id ⊎ LogsIn left.id
        either enters (inl known) = inl (
            subst (Known ss) (sym enters.id)
              ((open_session-Opens f ss c.request.cookie o h).1 known))
        either enters (inr given) = inr (record {
          entering = entering;
          credentials = given;
          opened = o;
          opens = h;
          same = enters.id;
          token = token_of (is_post c.request) (has_token c.request o.session) given.0 fine;
        })

    with_handler : Authenticated (close o.pool (handler route c (site o))).pool
    unfolding left
    with_handler t m a = either (
        mem-update o.pool left t
          (subst (λ q. Memᴰ t q) (close-pool o.pool (handler route c (site o))) m))
      where
        either : (t ≡ left) ⊎ Memᴰ t o.pool → Known ss t.id ⊎ LogsIn t.id
        either (inl e) =
            subst (λ x. Known ss x.id ⊎ LogsIn x.id) (sym e)
              (handled (is_login route) refl (ap (λ x. x.is_authenticated) (sym e) ∙ a))
        either (inr n) = inl ((open_session-Opens f ss c.request.cookie o h).0 t n a)

  with_session-Authenticated :
      (r : Result Open)
      → open_session c.request.cookie f ss ≡ r
      → Authenticated (with_session route c p ss r).pool
  unfolding with_session
  with_session-Authenticated (err e) h = λ t m a. inl (t, m, refl, a)
  with_session-Authenticated fatal h = λ t m a. inl (t, m, refl, a)
  with_session-Authenticated (ok o) h =
      elim (Bool-cases (is_post c.request && not (has_token c.request o.session))) [
        | inl forged ↦
            rw forged (λ t m a. inl ((open_session-Opens f ss c.request.cookie o h).0 t m a))
        | inr fine ↦ rw fine (with_handler o h fine)
      ]

  -- Only the owner gets an authenticated session: an authenticated session of the pool after a
  -- request has the ID of one before it, or the request is a posted login with the token of the
  -- session, the nickname of the owner and the password of the web client.
  pub serve-Authenticated : Authenticated (serve route c f p ss).pool
  unfolding serve
  serve-Authenticated = elim (Bool-cases (is_valid p c.lh)) [
    | inl valid ↦ rw valid (with_session-Authenticated (open_session c.request.cookie f ss) refl)
    | inr stale ↦ rw stale (λ t m a. inl (t, m, refl, a))
  ]
