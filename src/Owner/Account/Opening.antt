-- ===== src/Owner/Account/Opening.antt =====
-- What a user who has registered finds when the data are opened.
use dscuss.Prelude.{
  ◌≡◌, refl, sym, ap, ◌∙◌, subst, ==_refl, Bytes, bytes_eq, Bool, true, false, any, all, List, [],
  ◌∷◌, ◌++◌, append_assoc, append-nil, Option, none, some, ℕ, filesystem, ok, err, arith,
  Bool-cases, inl, inr, if◌then◌else◌,
}
use dscuss.Subs.Topic
use dscuss.Subs.Topic.{Topic, nil, slice, to_string, new_topic}
use dscuss.Subs.Topic.Strings.{new_topic-to_string}
use dscuss.Subs.Subscriptions
use dscuss.Subs.Subscriptions.{Subscriptions, contains, string_slice, copy_from}
use dscuss.Sqlite
use dscuss.Sqlite.ProfileDatabase.{ProfileDatabase, read_topics}
use dscuss.Owner.Profile.{Profile, put_subscription, get_subscriptions}
use dscuss.Owner.Account.{
  Owner, UserDir, Given, empty_profile, store_user, subscribe_in, with_key, read_key,
  put_subscriptions, new_profile, new_dir, new_storage, open_in, emerge_in, set_up,
}
use dscuss.Entity.{PrivateKey, User, UnsignedUser}
use dscuss.Sqlite.{put_user, get_user}
use dscuss.Entity.Users.{
  new_user, is_user_valid, emerge_user, new_unsigned_user, is_unsigned_user_valid,
}
use dscuss.Env.{Env, IsLawful}
use dscuss.Crypto.Keys.{KeyCodec, Decodes, encode_to_pem, parse_private_key_from_pem-encode_to_pem}
use dscuss.Crypto.{sign}
use dscuss.Crypto.Signing.{verify-sign}
use dscuss.Storage.{put_entity}

-- The text of each topic is new among the rows and the topics before it.
abbrev FreshIn : List Bytes → Subscriptions → Type 0
FreshIn rows [] = Unit
FreshIn rows (t ∷ ts) =
    (any (λ s. bytes_eq s (to_string t)) rows ≡ false) × FreshIn (rows ++ to_string t ∷ []) ts

put_subscription-new :
    (p : Profile) (t : Topic)
    → any (λ s. bytes_eq s (to_string t)) p.db.topic_rows ≡ false
    → ((put_subscription p t).0 ≡ ok tt)
      × ((put_subscription p t).1.db.topic_rows ≡ p.db.topic_rows ++ to_string t ∷ [])
unfolding put_subscription
put_subscription-new p t h = rw h (refl, refl)

-- What a run of `put_subscriptions` that succeeds has made of the rows.
put_subscriptions-rows :
    (p : Profile) (ts : Subscriptions)
    → (put_subscriptions p ts).0 ≡ ok tt
    → ((put_subscriptions p ts).1.db.topic_rows ≡ p.db.topic_rows ++ string_slice ts)
      × FreshIn p.db.topic_rows ts
unfolding put_subscriptions string_slice
put_subscriptions-rows p [] h = (sym (append-nil p.db.topic_rows), tt)
put_subscriptions-rows p (t ∷ ts) h =
    elim (Bool-cases (any (λ s. bytes_eq s (to_string t)) p.db.topic_rows)) [
      | inl old ↦ absurd (unfold put_subscription in ground arith)
      | inr fresh ↦
          let (done, row) = put_subscription-new p t fresh in
          let rest =
            put_subscriptions-rows (put_subscription p t).1 ts
              (rw (done, put_subscriptions) at h) in
          (
            rw (done, put_subscriptions)
                (rest.0
                  ∙ ap (λ r. r ++ string_slice ts) row
                  ∙ append_assoc p.db.topic_rows (to_string t ∷ []) (string_slice ts)),
            (fresh, subst (λ r. FreshIn r ts) row rest.1),
          )
    ]

any-string_slice :
    (s : Subscriptions) (t : Topic)
    → contains s t ≡ any (λ r. bytes_eq r (to_string t)) (string_slice s)
unfolding contains string_slice Topic.is_equal
any-string_slice [] t = refl
any-string_slice (u ∷ s) t = ground (arith, any-string_slice s t)

string_slice-append :
    (s u : Subscriptions) → string_slice (s ++ u) ≡ string_slice s ++ string_slice u
unfolding string_slice
string_slice-append [] u = refl
string_slice-append (t ∷ s) u = ap (λ r. to_string t ∷ r) (string_slice-append s u)

add_topic_fresh :
    (s : Subscriptions) (t : Topic)
    → any (λ r. bytes_eq r (to_string t)) (string_slice s) ≡ false
    → Subscriptions.add_topic s t ≡ s ++ t ∷ []
unfolding Subscriptions.add_topic
add_topic_fresh s t h = rw (any-string_slice s t, h) refl

-- A topic that has tags, and valid ones.
abbrev pub is_proper : Topic → Bool
is_proper nil = false
is_proper (slice ts) = Topic.is_valid (slice ts)

module _ (s : Subscriptions) (t : Topic) (ts : Subscriptions) where
  FreshIn-shift :
      FreshIn (string_slice s ++ to_string t ∷ []) ts → FreshIn (string_slice (s ++ t ∷ [])) ts
  unfolding string_slice
  FreshIn-shift f = subst (λ r. FreshIn r ts) (sym (string_slice-append s (t ∷ []))) f

read_topics-string_slice :
    (s ts : Subscriptions)
    → all is_proper ts ≡ true
    → FreshIn (string_slice s) ts
    → read_topics s (string_slice ts) ≡ ok (s ++ ts)
unfolding read_topics string_slice
read_topics-string_slice s [] v f = ap ok (sym (append-nil s))
read_topics-string_slice s (nil ∷ ts) v f = absurd (ground arith)
read_topics-string_slice s (slice t ∷ ts) v f =
    let e : new_topic (to_string (slice t)) ≡ ok (slice t) =
      new_topic-to_string (slice t) (ground arith) in
    rw (e, add_topic_fresh s (slice t) f.0, read_topics)
      (read_topics-string_slice (s ++ slice t ∷ []) ts (ground arith)
          (FreshIn-shift s (slice t) ts f.1)
        ∙ ap ok (append_assoc s (slice t ∷ []) ts))

copy_from-proper :
    (s ts : Subscriptions)
    → all is_proper ts ≡ true
    → FreshIn (string_slice s) ts
    → copy_from s ts ≡ s ++ ts
unfolding copy_from Topic.copy
copy_from-proper s [] v f = sym (append-nil s)
copy_from-proper s (nil ∷ ts) v f = absurd (ground arith)
copy_from-proper s (slice t ∷ ts) v f =
    rw (add_topic_fresh s (slice t) f.0, copy_from)
      (copy_from-proper (s ++ slice t ∷ []) ts (ground arith) (FreshIn-shift s (slice t) ts f.1)
        ∙ append_assoc s (slice t ∷ []) ts)

-- What the owner is who is opened after the registration of a user.
pub record IsRegistered (env : Env) (k : PrivateKey) (nickname info : Bytes) (subs : Subscriptions)
    (o : Owner) : Type 0 where
  pub named : o.user.nickname ≡ nickname
  pub informed : o.user.info ≡ info
  pub valid : is_user_valid env o.user ≡ ok true
  pub signing : o.signer ≡ k
  pub subscribed : (get_subscriptions o.profile).0 ≡ ok subs

module _ (c : KeyCodec) (decodes : Decodes c) (env : Env) (lawful : IsLawful env) (g : Given)
    (nickname info : Bytes) (subs : Subscriptions) (proper : all is_proper subs ≡ true)
    (k : PrivateKey) where
  abbrev pub Opened : UserDir → Type 0
  Opened d = (o : Owner) × (open_in c env (some d) ≡ ok o) × IsRegistered env k nickname info subs o

  abbrev keyed : UserDir
  unfolding new_dir
  keyed = record (new_dir nickname) { priv_key = some (encode_to_pem c k) }

  profile_read :
      (p : Profile)
      → p.db.topic_rows ≡ string_slice subs
      → FreshIn [] subs
      → p.subs ≡ []
      → (get_subscriptions p).0 ≡ ok subs
  unfolding get_subscriptions dscuss.Sqlite.ProfileDatabase.get_subscriptions Subscriptions.copy
      string_slice
  profile_read p rows fresh none_cached =
      rw
        (
          none_cached,
          rows,
          read_topics-string_slice [] subs proper fresh,
          copy_from-proper [] subs proper fresh,
        )
        refl

  module _ (proof : ℕ) where
    abbrev unsigned_user : UnsignedUser
    unsigned_user = new_unsigned_user env nickname info (env.public k) proof g.now

    abbrev registered : User
    registered = record { unsigned = unsigned_user; sig = sign env k (env.json_user unsigned_user) }

    -- The owner over what the registration leaves.
    abbrev opened : ProfileDatabase → Owner
    opened db = record {
      user = registered;
      storage = new_storage (put_user Sqlite.empty registered g.stored);
      profile = new_profile db registered.id;
      signer = k;
    }

    registered-is_user_valid :
        is_unsigned_user_valid env unsigned_user ≡ true → is_user_valid env registered ≡ ok true
    unfolding is_user_valid new_unsigned_user dscuss.Entity.Users.new_user_content
    registered-is_user_valid v = rw (verify-sign env lawful k (env.json_user unsigned_user), v) refl

    stored-Opened :
        is_unsigned_user_valid env unsigned_user ≡ true
        → (store_user subs keyed g.stored (ok registered)).0 ≡ ok tt
        → Opened (store_user subs keyed g.stored (ok registered)).1
    unfolding keyed store_user subscribe_in put_entity dscuss.Storage.put_in_db
        dscuss.Storage.notify_observers dscuss.Storage.notify new_storage put_user new_profile
        new_unsigned_user dscuss.Entity.Users.new_user_content dscuss.Entity.Users.user_to_id
        open_in with_key read_key get_user dscuss.Sqlite.find_user new_user
    stored-Opened v h =
        let p = new_profile empty_profile registered.id in
        let (rows, fresh) = put_subscriptions-rows p subs h in
        (
          opened ((put_subscriptions p subs).1.db),
          rw (parse_private_key_from_pem-encode_to_pem c decodes k, ==_refl registered.id) refl,
          record {
            named = refl;
            informed = refl;
            valid = registered-is_user_valid v;
            signing = refl;
            subscribed =
                profile_read (opened ((put_subscriptions p subs).1.db)).profile rows fresh refl;
          },
        )

    emerged-Opened :
        (emerge_in env g nickname info subs keyed k (some proof)).0 ≡ ok tt
        → Opened (emerge_in env g nickname info subs keyed k (some proof)).1
    unfolding emerge_in emerge_user store_user
    emerged-Opened h = elim (Bool-cases (is_unsigned_user_valid env unsigned_user)) [
      | inl valid ↦ rw valid (stored-Opened valid (rw valid at h))
      | inr wrong ↦ absurd (ground arith)
    ]

  pub set_up-Opened :
      g.key ≡ some k
      → (set_up c env g nickname info subs (new_dir nickname) g.key).0 ≡ ok tt
      → Opened (set_up c env g nickname info subs (new_dir nickname) g.key).1
  unfolding set_up keyed
  set_up-Opened made h = rw made (unless_failed g.write_fails g.proof (rw made at h))
    where
      unless_failed :
          (fails : Bool) (proof : Option ℕ)
          → (if fails
              then (err filesystem, new_dir nickname)
              else emerge_in env g nickname info subs keyed k proof).0
            ≡ ok tt
          → Opened
              (if fails
                then (err filesystem, new_dir nickname)
                else emerge_in env g nickname info subs keyed k proof).1
      unless_failed true proof h = absurd (ground arith)
      unless_failed false none h = absurd (unfold emerge_in in ground arith)
      unless_failed false (some proof) h = emerged-Opened proof h
