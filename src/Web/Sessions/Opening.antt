-- ===== src/Web/Sessions/Opening.antt =====
-- Which session a request gets.
use dscuss.Prelude.{
  ℕ, ◌+◌, ◌<◌, ◌≡◌, refl, sym, ap, ◌∙◌, ◌⊎◌, Bytes, bytes_eq, bytes_eq_iff, bytes_eq_refl, Bool,
  true, false, ◌||◌, any, find, select, ltb, find-some, find_mem, any_of_mem, subst,
  find-append_none, any-append, List, [], ◌∷◌, ◌++◌, Option, none, some, ok, arith, Bool-cases, inl,
  inr,
}
use dscuss.Web.Sessions.{
  Session, SessionPool, has_id, add, load, remove_session, remove_expired, remove_expired_sessions,
  update, Fresh, Open, new_session, session_cookies, make_session, touch, max_session_life,
  open_loaded, open_session,
}

-- No two sessions of the pool have one ID.
abbrev pub AreDistinct : SessionPool → Type 0
AreDistinct [] = Unit
AreDistinct (s ∷ ss) = (any (has_id s.id) ss ≡ false) × AreDistinct ss

any-select-false :
    (p q : Session → Bool) (ss : SessionPool) → any p ss ≡ false → any p (select q ss) ≡ false
any-select-false p q [] h = refl
any-select-false p q (s ∷ ss) h = ground (arith, any-select-false p q ss)

AreDistinct-select :
    (q : Session → Bool) (ss : SessionPool) → AreDistinct ss → AreDistinct (select q ss)
AreDistinct-select q [] d = tt
AreDistinct-select q (s ∷ ss) d = elim (Bool-cases (q s)) [
  | inl kept ↦ rw kept (any-select-false (has_id s.id) q ss d.0, AreDistinct-select q ss d.1)
  | inr gone ↦ rw gone (AreDistinct-select q ss d.1)
]

AreDistinct-remove_expired :
    (now : Bytes → ℕ) (copied : List Session) (ss : SessionPool)
    → AreDistinct ss
    → AreDistinct (remove_expired now copied ss)
unfolding remove_expired remove_session
AreDistinct-remove_expired now [] ss d = d
AreDistinct-remove_expired now (s ∷ copied) ss d =
    AreDistinct-remove_expired now copied _
      (elim (Bool-cases (ltb (s.updated_date + max_session_life) (now s.id))) [
        | inl old ↦ rw old (AreDistinct-select _ ss d)
        | inr live ↦ rw live d
      ])

bytes_eq_sym : (a b : Bytes) → bytes_eq a b ≡ bytes_eq b a
unfolding bytes_eq
bytes_eq_sym [] [] = refl
bytes_eq_sym [] (y ∷ b) = refl
bytes_eq_sym (x ∷ a) [] = refl
bytes_eq_sym (x ∷ a) (y ∷ b) = ground (arith, bytes_eq_sym a b)

AreDistinct-append :
    (ss : SessionPool) (s : Session)
    → AreDistinct ss
    → any (has_id s.id) ss ≡ false
    → AreDistinct (ss ++ s ∷ [])
AreDistinct-append [] s d h = (refl, tt)
AreDistinct-append (t ∷ ss) s d h = (
  ground (arith, any-append (has_id t.id) ss (s ∷ []), bytes_eq_sym t.id s.id),
  AreDistinct-append ss s d.1 (ground arith),
)

any-update :
    (id : Bytes) (ss : SessionPool) (s : Session)
    → any (has_id id) (update ss s) ≡ any (has_id id) ss
unfolding update
any-update id [] s = refl
any-update id (t ∷ ss) s = elim (Bool-cases (bytes_eq t.id s.id)) [
  | inl same ↦
      rw same
        (ap (λ x. bytes_eq x id || any (has_id id) ss) (sym ((bytes_eq_iff t.id s.id).0 same)))
  | inr other ↦ rw other (ap (λ b. bytes_eq t.id id || b) (any-update id ss s))
]

AreDistinct-update : (ss : SessionPool) (s : Session) → AreDistinct ss → AreDistinct (update ss s)
unfolding update
AreDistinct-update [] s d = tt
AreDistinct-update (t ∷ ss) s d = elim (Bool-cases (bytes_eq t.id s.id)) [
  | inl same ↦
      rw same (ap (λ x. any (has_id x) ss) (sym ((bytes_eq_iff t.id s.id).0 same)) ∙ d.0, d.1)
  | inr other ↦ rw other (any-update t.id ss s ∙ d.0, AreDistinct-update ss s d.1)
]

pub load-update :
    (ss : SessionPool) (s : Session)
    → any (has_id s.id) ss ≡ true
    → load (update ss s) s.id ≡ some s
unfolding load update
load-update [] s h = absurd (ground arith)
load-update (t ∷ ss) s h = elim (Bool-cases (bytes_eq t.id s.id)) [
  | inl same ↦ rw (same, bytes_eq_refl s.id) refl
  | inr other ↦ rw (other, other) (load-update ss s (ground arith))
]

-- What a request may rely on: the pool stays without two sessions of one ID, the session that it
-- gets stands in it, and that session is either one that the cookie names and that is not outdated,
-- with the new date, or a new one.
pub record IsOpened (sent : Option Bytes) (f : Fresh) (ss : SessionPool) (o : Open) : Type 0 where
  pub distinct : AreDistinct o.pool
  pub present : load o.pool o.session.id ≡ some o.session
  pub origin :
      ((t : Session) × (sent ≡ some t.id)
        × (load ss t.id ≡ some t)
        × (f.checked < t.updated_date + max_session_life)
        × (o.session ≡ touch f t))
      ⊎ (o.session ≡ new_session f)

pub ok_inj : {A : Type 0} {a b : A} → ok a ≡ ok b → a ≡ b
ok_inj h = cc

any_of_found :
    (p : Session → Bool) (ss : SessionPool) (s : Session) → find p ss ≡ some s → any p ss ≡ true
any_of_found p ss s h = any_of_mem p ss (find_mem p ss s h) (find-some p ss s h)

module _ (sent : Option Bytes) (f : Fresh) (ss : SessionPool) (distinct : AreDistinct ss) where
  abbrev kept : SessionPool
  kept = remove_expired_sessions f.expiring ss

  make_session-IsOpened : (o : Open) → make_session f ss ≡ ok o → IsOpened sent f ss o
  unfolding make_session remove_expired_sessions
  make_session-IsOpened o h =
      elim (Bool-cases (any (has_id f.session_id) (remove_expired_sessions f.expiring ss))) [
        | inl taken ↦ absurd (unfold add in ground arith)
        | inr free ↦
            let made : Open = record {
              session = new_session f;
              pool = kept ++ new_session f ∷ [];
              cookies = session_cookies (new_session f);
            } in
            let e : ok made ≡ ok o = unfold add in (rw free at h) in
            subst (IsOpened sent f ss) (ok_inj e) (record {
              distinct =
                  AreDistinct-append kept (new_session f)
                    (AreDistinct-remove_expired f.expiring ss ss distinct) free;
              present =
                  unfold load in
                  find-append_none (has_id f.session_id) kept (new_session f ∷ []) free
                  ∙ rw (bytes_eq_refl f.session_id) refl;
              origin = inr refl;
            })
      ]

  open_loaded-IsOpened :
      (id : Bytes) (found : Option Session)
      → sent ≡ some id
      → load ss id ≡ found
      → (o : Open) → open_loaded f ss found ≡ ok o
      → IsOpened sent f ss o
  unfolding open_loaded load
  open_loaded-IsOpened id none sends e o h = make_session-IsOpened o h
  open_loaded-IsOpened id (some s) sends e o h =
      elim (Bool-cases (ltb f.checked (s.updated_date + max_session_life))) [
        | inl live ↦
            let named : s.id ≡ id =
              (bytes_eq_iff s.id id).0 (unfold load in find-some (has_id id) ss s e) in
            let here : any (has_id s.id) ss ≡ true = rw named (any_of_found (has_id id) ss s e) in
            subst (IsOpened sent f ss) (ok_inj (rw live at h)) (record {
              distinct = AreDistinct-update ss (touch f s) distinct;
              present = load-update ss (touch f s) here;
              origin =
                  inl (s, sends ∙ ap some (sym named), ap (load ss) named ∙ e, ground arith, refl);
            })
        | inr old ↦ make_session-IsOpened o (rw old at h)
      ]

-- `OpenSession` never gives a session that is outdated or that another cookie names: the session is
-- the live one of the pool that the cookie names, or a new one that is not authenticated and has the
-- two random strings; it stands in the pool, where no two sessions have one ID, if none had before.
pub open_session-IsOpened :
    (sent : Option Bytes) (f : Fresh) (ss : SessionPool)
    → AreDistinct ss
    → (o : Open) → open_session sent f ss ≡ ok o
    → IsOpened sent f ss o
unfolding open_session
open_session-IsOpened none f ss d o h = make_session-IsOpened none f ss d o h
open_session-IsOpened (some id) f ss d o h =
    open_loaded-IsOpened (some id) f ss d id (load ss id) refl refl o h
