-- ===== src/Owner/Profile/Caches.antt =====
-- owner/profile.go: the caches of the profile beside its database.
use dscuss.Prelude.{
  ◌≡◌, ◌≢◌, refl, ap, sym, ◌∙◌, Bool, not, ◌&&◌, ◌||◌, List, [], ◌∷◌, ◌++◌, any, any-append, ◌==◌,
  ==_iff, Option, none, some, arith, Bool-cases, inl, inr, Result, ok, err, fatal,
}
use dscuss.Subs.Subscriptions.{Subscriptions}
use dscuss.Entity.{EntityId}
use dscuss.Sqlite.ProfileDatabase
use dscuss.Sqlite.ProfileDatabase.{ProfileDatabase, is_moderator_row, delete_id}
use dscuss.Owner.Profile.{
  Profile, put_moderator, remove_moderator, get_moderators, has_moderator, get_subscriptions,
  loaded, cached, cached_subs,
}

pub record IsCoherent (p : Profile) : Type 0 where
  pub moderators_loaded :
      (ms : List EntityId) → p.moderators ≡ some ms → ms ≡ p.db.moderator_rows ++ p.self_id ∷ []
  pub subs_loaded : p.subs ≢ [] → ProfileDatabase.get_subscriptions p.db ≡ ok p.subs

-- The owner, and those whom the database has as moderators.
abbrev pub is_moderator : Profile → EntityId → Bool
is_moderator p id = is_moderator_row p.db id || (id == p.self_id)

-- The profile after a question to it: only the caches may differ, and they agree with the database.
pub record IsAsked (p q : Profile) : Type 0 where
  pub coherent : IsCoherent q
  pub same_db : q.db ≡ p.db
  pub same_self : q.self_id ≡ p.self_id

pub IsAsked-trans : (p q r : Profile) → IsAsked p q → IsAsked q r → IsAsked p r
IsAsked-trans p q r a b = record {
  coherent = b.coherent;
  same_db = b.same_db ∙ a.same_db;
  same_self = b.same_self ∙ a.same_self;
}

pub is_moderator-asked :
    (p q : Profile) → IsAsked p q → (id : EntityId) → is_moderator q id ≡ is_moderator p id
is_moderator-asked p q a id =
    ap (λ db. is_moderator_row db id || (id == q.self_id)) a.same_db
    ∙ ap (λ s. is_moderator_row p.db id || (id == s)) a.same_self

module _ (p : Profile) (c : IsCoherent p) where
  pub IsAsked-refl : IsAsked p p
  IsAsked-refl = record { coherent = c; same_db = refl; same_self = refl }

  cached_all :
      (m : Option (List EntityId))
      → ((ms : List EntityId) → m ≡ some ms → ms ≡ p.db.moderator_rows ++ p.self_id ∷ [])
      → (cached p m).0 ≡ p.db.moderator_rows ++ p.self_id ∷ []
  unfolding ProfileDatabase.get_moderators
  cached_all none h = refl
  cached_all (some ms) h = h ms refl

  cached-IsAsked : (m : Option (List EntityId)) → IsAsked p (cached p m).1
  unfolding ProfileDatabase.get_moderators
  cached-IsAsked none = record {
    coherent = record { moderators_loaded = λ ms e. ground arith; subs_loaded = c.subs_loaded };
    same_db = refl;
    same_self = refl;
  }
  cached-IsAsked (some ms) = IsAsked-refl

  any-moderators :
      (id : EntityId)
      → any (λ m. m == id) (p.db.moderator_rows ++ p.self_id ∷ []) ≡ is_moderator p id
  any-moderators id = any-append (λ m. m == id) p.db.moderator_rows (p.self_id ∷ []) ∙ ground arith

  -- Whatever the cache holds, `HasModerator` answers for the owner and for those whom the database
  -- has as moderators, if the caches agree with the database; and they still do afterwards.
  pub has_moderator_lem :
      (id : EntityId)
      → ((has_moderator p id).0 ≡ is_moderator p id) × IsAsked p (has_moderator p id).1
  unfolding has_moderator get_moderators
  has_moderator_lem id = elim (Bool-cases (id == p.self_id)) [
    | inl own ↦ rw own (ground arith, IsAsked-refl)
    | inr other ↦ rw other (
      ap (any (λ m. m == id)) (cached_all p.moderators c.moderators_loaded)
          ∙ any-moderators id
          ∙ ground arith,
      cached-IsAsked p.moderators,
    )
  ]

  -- `GetSubscriptions` answers as it does with an empty cache, if the caches agree with the
  -- database; and they still do afterwards.
  pub get_subscriptions_lem :
      ((get_subscriptions p).0 ≡ (loaded p (ProfileDatabase.get_subscriptions p.db)).0)
      × IsAsked p (get_subscriptions p).1
  unfolding get_subscriptions ProfileDatabase.get_subscriptions cached_subs
  get_subscriptions_lem = by_cache p.subs c.subs_loaded
    where
      by_db :
          (r : Result Subscriptions)
          → ProfileDatabase.get_subscriptions p.db ≡ r
          → IsAsked p (loaded p r).1
      by_db (ok s) e = record {
        coherent = record { moderators_loaded = c.moderators_loaded; subs_loaded = λ n. e };
        same_db = refl;
        same_self = refl;
      }
      by_db (err e) h = IsAsked-refl
      by_db fatal h = IsAsked-refl

      by_cache :
          (s : Subscriptions)
          → (s ≢ [] → ProfileDatabase.get_subscriptions p.db ≡ ok s)
          → ((cached_subs p s).0 ≡ (loaded p (ProfileDatabase.get_subscriptions p.db)).0)
            × IsAsked p (cached_subs p s).1
      by_cache [] h = (refl, by_db (ProfileDatabase.get_subscriptions p.db) refl)
      by_cache (t ∷ ts) h = (ap (λ r. (loaded p r).0) (sym (h (λ e. ground arith))), IsAsked-refl)

delete_id-member :
    (l : List EntityId) (id x : EntityId)
    → any (λ m. m == x) (delete_id id l) ≡ (any (λ m. m == x) l && not (x == id))
delete_id-member [] id x = refl
delete_id-member (m ∷ l) id x = ground (arith, delete_id-member l id x)

row_put :
    (db : ProfileDatabase) (id x : EntityId)
    → is_moderator_row (ProfileDatabase.put_moderator db id).1 x
      ≡ (is_moderator_row db x || (x == id))
unfolding ProfileDatabase.put_moderator
row_put db id x = elim (Bool-cases (is_moderator_row db id)) [
  | inl there ↦ rw there (elim (Bool-cases (x == id)) [
    | inl same ↦
        let h = ap (λ k. is_moderator_row db k) ((==_iff x id).0 same) ∙ there in ground arith
    | inr other ↦ ground arith
  ])
  | inr new ↦ rw new (any-append (λ m. m == x) db.moderator_rows (id ∷ []) ∙ ground arith)
]

row_remove :
    (db : ProfileDatabase) (id x : EntityId)
    → is_moderator_row (ProfileDatabase.remove_moderator db id).1 x
      ≡ (is_moderator_row db x && not (x == id))
unfolding ProfileDatabase.remove_moderator
row_remove db id x = elim (Bool-cases (is_moderator_row db id)) [
  | inl there ↦ rw there (delete_id-member db.moderator_rows id x)
  | inr new ↦ rw new (elim (Bool-cases (x == id)) [
    | inl same ↦
        let h = ap (λ k. is_moderator_row db k) ((==_iff x id).0 same) ∙ new in ground arith
    | inr other ↦ ground arith
  ])
]

no_moderators-IsCoherent :
    (p : Profile) (db : ProfileDatabase)
    → (p.subs ≢ [] → ProfileDatabase.get_subscriptions db ≡ ok p.subs)
    → IsCoherent (record p { db = db; moderators = none })
no_moderators-IsCoherent p db h = record {
  moderators_loaded = λ ms e. ground arith;
  subs_loaded = h;
}

same_topics :
    (db : ProfileDatabase) (id : EntityId)
    → (ProfileDatabase.get_subscriptions (ProfileDatabase.put_moderator db id).1
        ≡ ProfileDatabase.get_subscriptions db)
      × (ProfileDatabase.get_subscriptions (ProfileDatabase.remove_moderator db id).1
          ≡ ProfileDatabase.get_subscriptions db)
unfolding ProfileDatabase.put_moderator ProfileDatabase.remove_moderator
    ProfileDatabase.get_subscriptions
same_topics db id = elim (Bool-cases (is_moderator_row db id)) [
  | inl there ↦ rw there (refl, refl)
  | inr new ↦ rw new (refl, refl)
]

module _ (p : Profile) (id : EntityId) (c : IsCoherent p) where
  -- After `PutModerator`, whatever it returns, the moderators are those before and the new one, and
  -- the caches still agree with the database if they did.
  pub put_moderator_lem :
      ((x : EntityId) → is_moderator (put_moderator p id).1 x ≡ (is_moderator p x || (x == id)))
      × IsCoherent (put_moderator p id).1
  unfolding put_moderator
  put_moderator_lem = elim (Bool-cases (id == p.self_id)) [
    | inl own ↦ rw own (λ x. let q = (==_iff id p.self_id).0 own in ground arith, c)
    | inr other ↦ rw other (
      λ x. let r = row_put p.db id x in ground arith,
      no_moderators-IsCoherent p _ (λ n. (same_topics p.db id).0 ∙ c.subs_loaded n),
    )
  ]

  -- After `RemoveModerator`, whatever it returns, the moderators are those before but the one
  -- removed, where the owner stays one, and the caches still agree with the database if they did.
  pub remove_moderator_lem :
      ((x : EntityId)
        → is_moderator (remove_moderator p id).1 x
          ≡ (is_moderator p x && (not (x == id) || (x == p.self_id))))
      × IsCoherent (remove_moderator p id).1
  unfolding remove_moderator
  remove_moderator_lem = elim (Bool-cases (id == p.self_id)) [
    | inl own ↦ rw own (λ x. let q = (==_iff id p.self_id).0 own in ground arith, c)
    | inr other ↦ rw other (
      λ x. let r = row_remove p.db id x in ground arith,
      no_moderators-IsCoherent p _ (λ n. (same_topics p.db id).1 ∙ c.subs_loaded n),
    )
  ]
