-- ===== src/Web/Serving/Guarded.antt =====
-- What a request may change.
use dscuss.Prelude.{
  ◌≡◌, refl, sym, subst, ◌⊎◌, inl, inr, true, false, not, ◌&&◌, Bool-cases, Result, ok, err, fatal,
  [], ◌∷◌, arith,
}
use dscuss.Node.Login.{Process, is_valid}
use dscuss.Web.Sessions.{SessionPool, Fresh, Open, open_session}
use dscuss.Web.Http.{is_post, cookies}
use dscuss.Web.Acting.{Call, Site, Step, next, stop}
use dscuss.Web.Serving.{Route, handler, serve, with_session, close, has_token}
use dscuss.Web.Serving.Along.{site_of}
use dscuss.Web.Serving.Reading.{SameData, SameData-refl}
use dscuss.Web.Serving.Writing.{is_form, handler-guarded}

-- The request has an authenticated session; if it is posted, it has the token of the session, and a
-- message or an operation is made by a posted form only.
pub record IsAllowed (route : Route) (c : Call) (f : Fresh) (ss : SessionPool) : Type 0 where
  pub opened : Open
  pub opens : open_session c.request.cookie f ss ≡ ok opened
  pub authenticated : opened.session.is_authenticated ≡ true
  pub token : is_post c.request ≡ true → has_token c.request opened.session ≡ true
  pub posted : is_form route ≡ true → is_post c.request ≡ true

pub close-process :
    (ss : SessionPool) (r : Step (Unit {0})) → (close ss r).process ≡ (site_of r).process
unfolding close
close-process ss (next u s) = refl
close-process ss (stop fl s) = refl

module _ (route : Route) (c : Call) (f : Fresh) (p : Process) (ss : SessionPool) where
  abbrev pub Guards : Process → Type 0
  Guards q = SameData c.lh p q ⊎ IsAllowed route c f ss

  abbrev site : Open → Site
  site o = record { process = p; session = o.session; replies = cookies o.cookies ∷ [] }

  with_session-guarded :
      (r : Result Open)
      → open_session c.request.cookie f ss ≡ r
      → Guards (with_session route c p ss r).process
  unfolding with_session
  with_session-guarded (err e) h = inl (SameData-refl c.lh p)
  with_session-guarded fatal h = inl (SameData-refl c.lh p)
  with_session-guarded (ok o) h =
      elim (Bool-cases (is_post c.request && not (has_token c.request o.session))) [
        | inl forged ↦ rw forged (inl (SameData-refl c.lh p))
        | inr fine ↦ rw fine (
            subst Guards (sym (close-process o.pool (handler route c (site o))))
              (allowed (handler-guarded route c (site o)) fine))
      ]
    where
      allowed :
          SameData c.lh p (site_of (handler route c (site o))).process
            ⊎ ((o.session.is_authenticated ≡ true)
                × (is_form route ≡ true → is_post c.request ≡ true))
          → (is_post c.request && not (has_token c.request o.session)) ≡ false
          → Guards (site_of (handler route c (site o))).process
      allowed (inl same) fine = inl same
      allowed (inr (known, posted)) fine = inr (record {
        opened = o;
        opens = h;
        authenticated = known;
        token = λ e. ground arith;
        posted = posted;
      })

  -- A request changes data only with the right to: unless the user, the signer, the databases, the
  -- user directories and the login stay as they are, the session of the request is authenticated,
  -- a posted form has its token, and a message or an operation is made by a posted form only. The
  -- caches of the profile may be filled by any request.
  pub serve-guarded : Guards (serve route c f p ss).process
  unfolding serve
  serve-guarded = elim (Bool-cases (is_valid p c.lh)) [
    | inl valid ↦ rw valid (with_session-guarded (open_session c.request.cookie f ss) refl)
    | inr stale ↦ rw stale (inl (SameData-refl c.lh p))
  ]
