-- ===== src/Web/Serving/Along.antt =====
-- What the steps of a handler keep: relations between the site before and the site after.
use dscuss.Prelude.{
  ◌≡◌, refl, Bool, true, false, [], ◌∷◌, ◌++◌, if◌then◌else◌, Option, none, some, Result, ok, err,
  fatal, Bytes, is_no_such_entity,
}
use dscuss.Entity.Ids.{parse_string}
use dscuss.Web.Http.{Reply, forbidden, bad_request, not_found, CommonData, Page}
use dscuss.Web.Acting.{
  Call, Site, Act, Step, next, stop, Flow, panicked, ended, running, ◌>>=◌, ◌>>◌, done, finish,
  reply, respond, require, require_session, or_panic, or_not_found, or_bad_request, or_running,
  get_session, get_handle, parse_id, render_page,
}

abbrev pub site_of : {A : Type 0} → Step A → Site
site_of (next a s) = s
site_of (stop fl s) = s

-- A preorder on sites that does not see the replies.
pub record Overlooks (R : Site → Site → Type 0) : Type 0 where
  pub of_same : (s t : Site) → t.process ≡ s.process → t.session ≡ s.session → R s t
  pub trans : (s t u : Site) → R s t → R t u → R s u

-- The site that an action leaves is related to the one before.
pub record Along (R : Site → Site → Type 0) {A : Type 0} (m : Act A) : Type 0 where
  pub apply : (s : Site) → R s (site_of (m s))

module _ {R : Site → Site → Type 0} (laws : Overlooks R) where
  then_lem :
      {A B : Type 0} (f : A → Act B) (s : Site) (r : Step A)
      → R s (site_of r)
      → ((a : A) → Along R (f a))
      → R s (site_of (elim r [ next a t ↦ f a t | stop fl t ↦ stop fl t ]))
  then_lem f s (next a t) p q = laws.trans s t (site_of (f a t)) p ((q a).apply t)
  then_lem f s (stop fl t) p q = p

  pub bind_lem :
      {A B : Type 0} {m : Act A} {f : A → Act B}
      → Along R m
      → ((a : A) → Along R (f a))
      → Along R (m >>= f)
  bind_lem {m = m} {f = f} p q = record { apply = λ s. then_lem f s (m s) (p.apply s) q }

  pub seq_lem :
      {B : Type 0} {m : Act (Unit {0})} {k : Act B} → Along R m → Along R k → Along R (m >> k)
  seq_lem p q = bind_lem p (λ _. q)

  pub done_lem : {A : Type 0} (a : A) → Along R (done a)
  done_lem a = record { apply = λ s. laws.of_same s s refl refl }

  pub finish_lem : {A : Type 0} (fl : Flow) → Along R (finish {A = A} fl)
  finish_lem fl = record { apply = λ s. laws.of_same s s refl refl }

  pub reply_lem : (r : Reply) → Along R (reply r)
  reply_lem r = record {
    apply = λ s. laws.of_same s (record s { replies = s.replies ++ r ∷ [] }) refl refl;
  }

  pub respond_lem : {A : Type 0} (r : Reply) → Along R (respond {A = A} r)
  respond_lem r = record {
    apply = λ s. laws.of_same s (record s { replies = s.replies ++ r ∷ [] }) refl refl;
  }

  pub require_lem : (b : Bool) (r : Reply) → Along R (require b r)
  require_lem true r = record { apply = λ s. laws.of_same s s refl refl }
  require_lem false r = record {
    apply = λ s. laws.of_same s (record s { replies = s.replies ++ r ∷ [] }) refl refl;
  }

  pub require_session_lem : Along R require_session
  require_session_lem = record {
    apply = λ s. (require_lem s.session.is_authenticated forbidden).apply s;
  }

  pub or_panic_lem : {A : Type 0} (r : Result A) → Along R (or_panic r)
  or_panic_lem (ok a) = done_lem a
  or_panic_lem (err e) = finish_lem panicked
  or_panic_lem fatal = finish_lem ended

  pub or_bad_request_lem : {A : Type 0} (r : Result A) → Along R (or_bad_request r)
  or_bad_request_lem (ok a) = done_lem a
  or_bad_request_lem (err e) = respond_lem bad_request
  or_bad_request_lem fatal = finish_lem ended

  pub if_lem :
      {A : Type 0} (b : Bool) {x y : Act A} → Along R x → Along R y → Along R (if b then x else y)
  if_lem true p q = p
  if_lem false p q = q

  pub or_not_found_lem : {A : Type 0} (r : Result A) → Along R (or_not_found r)
  or_not_found_lem (ok a) = done_lem a
  or_not_found_lem (err e) =
      if_lem (is_no_such_entity e) (seq_lem (reply_lem not_found) (finish_lem panicked))
        (finish_lem panicked)
  or_not_found_lem fatal = finish_lem ended

  pub or_running_lem : {A : Type 0} (o : Option A) → Along R (or_running o)
  or_running_lem none = finish_lem running
  or_running_lem (some a) = done_lem a

  pub get_session_lem : Along R get_session
  get_session_lem = record { apply = λ s. laws.of_same s s refl refl }

  pub get_handle_lem : (c : Call) → Along R (get_handle c)
  get_handle_lem c = record { apply = λ s. laws.of_same s s refl refl }

  pub parse_id_lem : (c : Call) (t : Bytes) → Along R (parse_id c t)
  unfolding parse_id
  parse_id_lem c t = or_bad_request_lem (parse_string c.env c.lib.decode_base64 t)

  pub render_page_lem :
      (c : Call) (t : Bytes) (page : CommonData → Page) → Along R (render_page c t page)
  unfolding render_page
  render_page_lem c t page = record {
    apply = λ s. laws.of_same s (site_of (render_page c t page s)) refl refl;
  }
