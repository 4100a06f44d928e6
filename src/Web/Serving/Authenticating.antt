-- ===== src/Web/Serving/Authenticating.antt =====
-- How a session becomes authenticated.
use dscuss.Prelude.{
  ◌≡◌, refl, ap, sym, ◌∙◌, subst, ◌⊎◌, inl, inr, Bool, true, false, ◌&&◌, Bool-cases, if◌then◌else◌,
  arith, bytes_eq, bytes_eq_iff, codes,
}
use dscuss.Node.Login.{Process}
use dscuss.Web.Sessions.{authenticate}
use dscuss.Web.Http.{is_post}
use dscuss.Web.Acting.{Call, Site, Act, handle_of, render_page}
use dscuss.Web.Entering.{handle_login, try_login, check_login, login_page, entered}
use dscuss.Web.Serving.Along.{
  site_of, Overlooks, Along, bind_lem, seq_lem, respond_lem, require_lem, get_session_lem, if_lem,
  render_page_lem,
}

-- The posted name and password are those of the owner.
abbrev pub Credentials : Call → Process → Type 0
Credentials c p =
    (is_post c.request ≡ true)
    × (c.request.post_form_value (codes "username") ≡ (handle_of p c.lh).user.nickname)
    × (c.request.post_form_value (codes "password") ≡ c.password)

and_left : (a b : Bool) → (a && b) ≡ true → a ≡ true
and_left a b h = ground arith

and_right : (a b : Bool) → (a && b) ≡ true → b ≡ true
and_right a b h = ground arith

module _ (c : Call) where
  -- The session keeps its ID and becomes authenticated by the credentials only.
  pub record Enters (s t : Site) : Type 0 where
    pub process : t.process ≡ s.process
    pub id : t.session.id ≡ s.session.id
    pub entered :
        t.session.is_authenticated ≡ true
        → (s.session.is_authenticated ≡ true) ⊎ Credentials c s.process

  Enters-trans : (s t u : Site) → Enters s t → Enters t u → Enters s u
  Enters-trans s t u a b = record {
    process = b.process ∙ a.process;
    id = b.id ∙ a.id;
    entered = λ h. either (b.entered h);
  }
    where
      either :
          (t.session.is_authenticated ≡ true) ⊎ Credentials c t.process
          → (s.session.is_authenticated ≡ true) ⊎ Credentials c s.process
      either (inl known) = a.entered known
      either (inr given) = inr (subst (Credentials c) a.process given)

  laws : Overlooks Enters
  laws = record {
    of_same = λ s t p e. record {
      process = p;
      id = ap (λ x. x.id) e;
      entered = λ h. inl (sym (ap (λ x. x.is_authenticated) e) ∙ h);
    };
    trans = Enters-trans;
  }

  entered-Enters :
      (s : Site)
      → is_post c.request ≡ true
      → Enters s (
          site_of (
            entered c
              (authenticate
                (handle_of s.process c.lh).user.nickname
                c.password
                s.session
                (c.request.post_form_value (codes "username"))
                (c.request.post_form_value (codes "password")))
              s))
  unfolding entered authenticate login_page render_page
  entered-Enters s posted =
      elim (Bool-cases (
        bytes_eq (c.request.post_form_value (codes "username"))
          (handle_of s.process c.lh).user.nickname
        && bytes_eq (c.request.post_form_value (codes "password")) c.password)) [
          | inl right ↦ rw right (record {
            process = refl;
            id = refl;
            entered = λ h. inr (
              posted,
              (bytes_eq_iff _ _).0 (and_left _ _ right),
              (bytes_eq_iff _ _).0 (and_right _ _ right),
            );
          })
          | inr wrong ↦ rw wrong (record { process = refl; id = refl; entered = λ h. inl h })
        ]

  -- The branch of a posted request may use that it is posted.
  posted_lem :
      {A : Type 0} (b : Bool) {x y : Act A}
      → (b ≡ true → Along Enters x)
      → Along Enters y
      → Along Enters (if b then x else y)
  posted_lem true p q = p refl
  posted_lem false p q = q

  check_login-Enters :
      is_post c.request ≡ true
      → Along Enters (
          check_login c
            (c.request.post_form_value (codes "username"))
            (c.request.post_form_value (codes "password")))
  unfolding check_login
  check_login-Enters posted = record { apply = λ s. entered-Enters s posted }

  try_login-Enters : is_post c.request ≡ true → Along Enters (try_login c)
  unfolding try_login login_page
  try_login-Enters posted = search (if_lem, render_page_lem, check_login-Enters, laws)

  pub handle_login-Enters : Along Enters (handle_login c)
  unfolding handle_login login_page
  handle_login-Enters =
      search
        (
          seq_lem, bind_lem, require_lem, get_session_lem, respond_lem, render_page_lem, posted_lem,
          try_login-Enters, laws,
        )
        depth 12
