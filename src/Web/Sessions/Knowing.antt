-- ===== src/Web/Sessions/Knowing.antt =====
-- Opening a session makes none authenticated.
use dscuss.Prelude.{
  ℕ, ◌+◌, ltb, ◌≡◌, refl, ap, sym, ◌∙◌, subst, ◌⊎◌, inl, inr, Bool, true, false, not, Bool-cases,
  any, select, find_mem, Option, none, some, ok, [], ◌∷◌, ◌++◌, if◌then◌else◌, arith, Bytes,
  bytes_eq, Memᴰ, mem-select,
}
use dscuss.Web.Sessions.{
  Session, SessionPool, Fresh, Open, open_session, open_loaded, make_session, update, touch,
  new_session, has_id, add, load, remove_session, remove_expired, remove_expired_sessions,
  max_session_life, session_cookies,
}
use dscuss.Web.Sessions.Opening.{ok_inj}

-- An authenticated session of the pool has the ID.
abbrev pub Known : SessionPool → Bytes → Type 0
Known ss id = (u : Session) × Memᴰ u ss × (u.id ≡ id) × (u.is_authenticated ≡ true)

-- Every authenticated session of a pool has the ID of one of another pool.
abbrev pub AllKnown : SessionPool → SessionPool → Type 0
AllKnown ss qs = (t : Session) → Memᴰ t qs → t.is_authenticated ≡ true → Known ss t.id

pub mem-update : (ss : SessionPool) (s t : Session) → Memᴰ t (update ss s) → (t ≡ s) ⊎ Memᴰ t ss
unfolding update
mem-update [] s t m = inr m
mem-update (u ∷ ss) s t m = elim (Bool-cases (bytes_eq u.id s.id)) [
  | inl same ↦ replaced (rw same at m)
  | inr other ↦ kept (rw other at m) (mem-update ss s t)
]
  where
    replaced : Memᴰ t (s ∷ ss) → (t ≡ s) ⊎ Memᴰ t (u ∷ ss)
    replaced (Memᴰ.head e) = inl e
    replaced (Memᴰ.tail n) = inr (Memᴰ.tail n)

    later : (t ≡ s) ⊎ Memᴰ t ss → (t ≡ s) ⊎ Memᴰ t (u ∷ ss)
    later (inl e) = inl e
    later (inr n) = inr (Memᴰ.tail n)

    kept :
        Memᴰ t (u ∷ update ss s)
        → (Memᴰ t (update ss s) → (t ≡ s) ⊎ Memᴰ t ss)
        → (t ≡ s) ⊎ Memᴰ t (u ∷ ss)
    kept (Memᴰ.head e) ih = inr (Memᴰ.head e)
    kept (Memᴰ.tail n) ih = later (ih n)

mem-append_one : (ss : SessionPool) (s t : Session) → Memᴰ t (ss ++ s ∷ []) → (t ≡ s) ⊎ Memᴰ t ss
mem-append_one [] s t (Memᴰ.head e) = inl e
mem-append_one [] s t (Memᴰ.tail n) = elim n [ ]
mem-append_one (u ∷ ss) s t (Memᴰ.head e) = inr (Memᴰ.head e)
mem-append_one (u ∷ ss) s t (Memᴰ.tail n) = later (mem-append_one ss s t n)
  where
    later : (t ≡ s) ⊎ Memᴰ t ss → (t ≡ s) ⊎ Memᴰ t (u ∷ ss)
    later (inl e) = inl e
    later (inr m) = inr (Memᴰ.tail m)

mem-remove_expired :
    (now : Bytes → ℕ) (copied ss : SessionPool) (t : Session)
    → Memᴰ t (remove_expired now copied ss)
    → Memᴰ t ss
unfolding remove_expired remove_session
mem-remove_expired now [] ss t m = m
mem-remove_expired now (s ∷ copied) ss t m =
    dropped (ltb (s.updated_date + max_session_life) (now s.id))
      (mem-remove_expired now copied _ t m)
  where
    dropped :
        (b : Bool)
        → Memᴰ t (if b then select (λ x. not (bytes_eq x.id s.id)) ss else ss)
        → Memᴰ t ss
    dropped true n = (mem-select _ ss n).0
    dropped false n = n

module _ (f : Fresh) (ss : SessionPool) where
  -- What an open request has.
  abbrev pub Opens : Open → Type 0
  Opens o = AllKnown ss o.pool × (o.session.is_authenticated ≡ true → Known ss o.session.id)

  kept : SessionPool
  kept = remove_expired_sessions f.expiring ss

  made-AllKnown : AllKnown ss (kept ++ new_session f ∷ [])
  unfolding kept remove_expired_sessions
  made-AllKnown t m a = either (mem-append_one kept (new_session f) t m)
    where
      either : (t ≡ new_session f) ⊎ Memᴰ t kept → Known ss t.id
      either (inl e) = absurd (cc (ap (λ x. x.is_authenticated) e))
      either (inr n) = (t, mem-remove_expired f.expiring ss ss t n, refl, a)

  make_session-Opens : (o : Open) → make_session f ss ≡ ok o → Opens o
  unfolding make_session kept
  make_session-Opens o h = elim (Bool-cases (any (has_id f.session_id) kept)) [
    | inl taken ↦ absurd (unfold add in ground arith)
    | inr free ↦
        let made : Open = record {
          session = new_session f;
          pool = kept ++ new_session f ∷ [];
          cookies = session_cookies (new_session f);
        } in
        let e : ok made ≡ ok o = unfold add in (rw free at h) in
        subst Opens (ok_inj e) (made-AllKnown, λ a. absurd (cc))
  ]

  touched-AllKnown : (u : Session) → Memᴰ u ss → AllKnown ss (update ss (touch f u))
  touched-AllKnown u here t m a = either (mem-update ss (touch f u) t m)
    where
      either : (t ≡ touch f u) ⊎ Memᴰ t ss → Known ss t.id
      either (inl e) = (u, here, ap (λ x. x.id) (sym e), ap (λ x. x.is_authenticated) (sym e) ∙ a)
      either (inr n) = (t, n, refl, a)

  open_loaded-Opens :
      (u : Option Session) (id : Bytes)
      → load ss id ≡ u
      → (o : Open) → open_loaded f ss u ≡ ok o
      → Opens o
  unfolding open_loaded load
  open_loaded-Opens none id e o h = make_session-Opens o h
  open_loaded-Opens (some u) id e o h =
      elim (Bool-cases (ltb f.checked (u.updated_date + max_session_life))) [
        | inl live ↦
            let here = find_mem (has_id id) ss u e in
            subst Opens (ok_inj (rw live at h)) (touched-AllKnown u here, λ a. (u, here, refl, a))
        | inr old ↦ make_session-Opens o (rw old at h)
      ]

  pub open_session-Opens :
      (sent : Option Bytes) (o : Open) → open_session sent f ss ≡ ok o → Opens o
  unfolding open_session
  open_session-Opens none o h = make_session-Opens o h
  open_session-Opens (some id) o h = open_loaded-Opens (load ss id) id refl o h
