-- ===== src/Web/Serving/Forging.antt =====
-- A change that needs no token.
use dscuss.Prelude.{◌==◌, ==_refl, ◌≡◌, refl, ap, ◌∙◌, [], ◌∷◌, true, false, ok, codes}
use dscuss.Entity.{EntityId}
use dscuss.Entity.Ids.{parse_string}
use dscuss.Sqlite.ProfileDatabase
use dscuss.Sqlite.ProfileDatabase.{is_moderator_row, delete_id}
use dscuss.Owner.Profile.{Profile, remove_moderator}
use dscuss.Node.Login.{Process, is_valid}
use dscuss.Web.Sessions.{SessionPool, Fresh, Open, open_session}
use dscuss.Web.Http.{is_post, forbidden, cookies}
use dscuss.Web.Acting.{
  Call, next, require, require_session, Site, handle_of, set_handle, use_handle, parse_id,
}
use dscuss.Web.Settings.{handle_del_moderator}
use dscuss.Web.Serving.Guarded.{close-process}
use dscuss.Web.Serving.Along.{site_of}
use dscuss.Web.Serving.{del_moderator, handler, serve, with_session, close}

module _ (c : Call) (s : Site) (id : EntityId) where
  abbrev own : Profile
  own = (handle_of s.process c.lh).profile

  removed :
      id == own.self_id ≡ false
      → is_moderator_row own.db id ≡ true
      → ((remove_moderator own id).0 ≡ ok tt)
        × ((remove_moderator own id).1.db.moderator_rows ≡ delete_id id own.db.moderator_rows)
  unfolding remove_moderator ProfileDatabase.remove_moderator
  removed other moder = rw (other, moder) (refl, refl)

  in_session : s.session.is_authenticated ≡ true → require_session s ≡ next tt s
  in_session known = ap (λ b. require b forbidden s) known

  handled :
      s.session.is_authenticated ≡ true
      → c.request.query_count ≡ 1
      → parse_string c.env c.lib.decode_base64 (c.request.query (codes "id")) ≡ ok id
      → (remove_moderator own id).0 ≡ ok tt
      → (handle_of (site_of (handle_del_moderator c s)).process c.lh).profile
        ≡ (remove_moderator own id).1
  unfolding handle_del_moderator parse_id use_handle set_handle
  handled known one named done =
      let open_to : require_session s ≡ next tt s = in_session known in
      simp (one, named) (rw (handle_of, open_to, done, ==_refl c.lh) refl)

-- A link on another site is enough to remove a moderator: a request that is not posted, and whose
-- cookie names an authenticated session, removes the moderator that its query names, whatever it
-- has or lacks for a token.
pub serve-del_moderator :
    (c : Call) (f : Fresh) (p : Process) (ss : SessionPool) (o : Open) (id : EntityId)
    → is_valid p c.lh ≡ true
    → open_session c.request.cookie f ss ≡ ok o
    → o.session.is_authenticated ≡ true
    → is_post c.request ≡ false
    → c.request.query_count ≡ 1
    → parse_string c.env c.lib.decode_base64 (c.request.query (codes "id")) ≡ ok id
    → id == (handle_of p c.lh).profile.self_id ≡ false
    → is_moderator_row (handle_of p c.lh).profile.db id ≡ true
    → (handle_of (serve del_moderator c f p ss).process c.lh).profile.db.moderator_rows
      ≡ delete_id id (handle_of p c.lh).profile.db.moderator_rows
unfolding serve with_session close handler handle_del_moderator parse_id use_handle set_handle
    remove_moderator ProfileDatabase.remove_moderator
serve-del_moderator c f p ss o id valid opens known link one named other moder =
    let s : Site = record { process = p; session = o.session; replies = cookies o.cookies ∷ [] } in
    let (done, rows) = removed c s id other moder in
    simp (valid, opens, link)
      (ap (λ q. (handle_of q c.lh).profile.db.moderator_rows)
          (close-process o.pool (handle_del_moderator c s))
        ∙ ap (λ x. x.db.moderator_rows) (handled c s id known one named done)
        ∙ rows)
