-- ===== src/Web/Serving/Reading.antt =====
-- The handlers of the pages that are read change no data.
use dscuss.Prelude.{
  ℤ, pos, negsuc, ℕ, ==_refl, ◌≡◌, refl, sym, ◌∙◌, subst, List, [], ◌∷◌, Option, none, some, Result,
  ok, err, fatal, Bytes,
}
use dscuss.Subs.Topic.{Topic, nil, slice}
use dscuss.Entity.{EntityId, Message, Operation, UserHistory}
use dscuss.Thread
use dscuss.Env.{Env}
use dscuss.Owner.View.Asking.{
  SameDb, moderate_messages-SameDb, moderate_thread-SameDb, get_moderators-SameDb,
}
use dscuss.Owner.Profile.{Profile, get_subscriptions}
use dscuss.Node.{
  LoginHandle, moderated, moderated_thread, page, list_board, list_topic, list_thread,
}
use dscuss.Node.Login.{Process}
use dscuss.Node.Login.Again.{get_subscriptions-db}
use dscuss.Web.Acting.{Call, Site, handle_of, set_handle, searched, use_handle, use_search}
use dscuss.Web.Serving.Along.{
  site_of, Overlooks, Along, bind_lem, seq_lem, done_lem, finish_lem, reply_lem, respond_lem,
  require_lem, require_session_lem, or_panic_lem, or_bad_request_lem, or_not_found_lem,
  get_handle_lem, parse_id_lem, if_lem, render_page_lem,
}
use dscuss.Sqlite.{get_user}
use dscuss.Sqlite.MessageQueries.{get_root_messages, get_topic_messages}
use dscuss.Web.Http.{assign_user}
use dscuss.Web.Settings.{list_moderators, assign_moderators, handle_profile}
use dscuss.Web.Browsing.{
  full_history, handle_board, handle_thread, handle_user, handle_list_operations,
  handle_peer_history, list_messages, show_thread, or_empty,
}

-- The same user, signer and data; the caches of the profile and the times may differ.
pub record SameOwner (h k : LoginHandle) : Type 0 where
  pub user : k.user ≡ h.user
  pub signer : k.signer ≡ h.signer
  pub storage : k.storage ≡ h.storage
  pub profile : k.profile.db ≡ h.profile.db

pub record SameData (lh : ℕ) (p q : Process) : Type 0 where
  pub disk : q.disk ≡ p.disk
  pub login : q.login ≡ p.login
  pub owner : SameOwner (handle_of p lh) (handle_of q lh)

pub SameData-refl : (lh : ℕ) (p : Process) → SameData lh p p
SameData-refl lh p = record {
  disk = refl;
  login = refl;
  owner = record { user = refl; signer = refl; storage = refl; profile = refl };
}

SameData-trans : (lh : ℕ) (p q r : Process) → SameData lh p q → SameData lh q r → SameData lh p r
SameData-trans lh p q r a b = record {
  disk = b.disk ∙ a.disk;
  login = b.login ∙ a.login;
  owner = record {
    user = b.owner.user ∙ a.owner.user;
    signer = b.owner.signer ∙ a.owner.signer;
    storage = b.owner.storage ∙ a.owner.storage;
    profile = b.owner.profile ∙ a.owner.profile;
  };
}

abbrev pub Quiet : ℕ → Site → Site → Type 0
Quiet lh s t = SameData lh s.process t.process

pub Quiet-Overlooks : (lh : ℕ) → Overlooks (Quiet lh)
Quiet-Overlooks lh = record {
  of_same = λ s t p e. subst (SameData lh s.process) (sym p) (SameData-refl lh s.process);
  trans = λ s t u a b. SameData-trans lh s.process t.process u.process a b;
}

set_handle-SameData :
    (p : Process) (lh : ℕ) (h : LoginHandle)
    → SameOwner (handle_of p lh) h
    → SameData lh p (set_handle p lh h)
unfolding set_handle
set_handle-SameData p lh h o = record {
  disk = refl;
  login = refl;
  owner = rw (handle_of, ==_refl lh) o;
}

-- What a search gives keeps the data.
abbrev Keeps : {A : Type 0} → LoginHandle → Option (A × LoginHandle) → Type 0
Keeps h none = Unit
Keeps h (some r) = SameOwner h r.1

module _ (c : Call) where
  use_handle-Quiet :
      {A : Type 0} (f : LoginHandle → A × LoginHandle)
      → ((h : LoginHandle) → SameOwner h (f h).1)
      → Along (Quiet c.lh) (use_handle c f)
  unfolding use_handle
  use_handle-Quiet f keeps = record {
    apply = λ s.
        set_handle-SameData s.process c.lh (f (handle_of s.process c.lh)).1
          (keeps (handle_of s.process c.lh));
  }

  searched-Quiet :
      {A : Type 0} (s : Site) (o : Option (A × LoginHandle))
      → Keeps (handle_of s.process c.lh) o
      → SameData c.lh s.process (site_of (searched c s o)).process
  unfolding searched
  searched-Quiet s none k = SameData-refl c.lh s.process
  searched-Quiet s (some (a, h)) k = set_handle-SameData s.process c.lh h k

  use_search-Quiet :
      {A : Type 0} (f : LoginHandle → Option (A × LoginHandle))
      → ((h : LoginHandle) → Keeps h (f h))
      → Along (Quiet c.lh) (use_search c f)
  unfolding use_search
  use_search-Quiet f keeps = record {
    apply = λ s. searched-Quiet s (f (handle_of s.process c.lh)) (keeps (handle_of s.process c.lh));
  }

SameOwner-with_profile :
    (h : LoginHandle) (p : Profile) → SameDb h.profile p → SameOwner h (record h { profile = p })
SameOwner-with_profile h p e = record { user = refl; signer = refl; storage = refl; profile = e }

SameOwner-refl : (h : LoginHandle) → SameOwner h h
SameOwner-refl h = record { user = refl; signer = refl; storage = refl; profile = refl }

module _ (env : Env) (h : LoginHandle) where
  moderated-SameOwner : (r : Result (List Message)) → SameOwner h (moderated env h r).1
  unfolding moderated
  moderated-SameOwner (ok mm) =
      SameOwner-with_profile h _ (moderate_messages-SameDb env h.storage.db h.profile mm)
  moderated-SameOwner (err e) = SameOwner-refl h
  moderated-SameOwner fatal = SameOwner-refl h

  page-SameOwner :
      (offset limit : ℤ) (get : ℕ → ℕ → Result (List Message))
      → SameOwner h (page env h offset limit get).1
  unfolding page
  page-SameOwner (pos o) (pos l) get = moderated-SameOwner (get o l)
  page-SameOwner (pos o) (negsuc l) get = SameOwner-refl h
  page-SameOwner (negsuc o) l get = SameOwner-refl h

  moderated_thread-Keeps : (t : Option (Result Thread.Node)) → Keeps h (moderated_thread env h t)
  unfolding moderated_thread
  moderated_thread-Keeps none = tt
  moderated_thread-Keeps (some (ok t)) =
      SameOwner-with_profile h _ (moderate_thread-SameDb env h.storage.db h.profile t)
  moderated_thread-Keeps (some (err e)) = SameOwner-refl h
  moderated_thread-Keeps (some fatal) = SameOwner-refl h

module _ (c : Call) where
  abbrev laws : Overlooks (Quiet c.lh)
  laws = Quiet-Overlooks c.lh

  ruleset quiet = (
    seq_lem, bind_lem, done_lem, finish_lem, reply_lem, respond_lem, require_lem,
    require_session_lem, or_panic_lem, or_bad_request_lem, or_not_found_lem, get_handle_lem,
    parse_id_lem, if_lem, render_page_lem,
  )

  pub handle_user-Quiet : Along (Quiet c.lh) (handle_user c)
  unfolding handle_user
  handle_user-Quiet = search (quiet, laws) depth 14

  list_messages-Quiet : (t : Topic) → Along (Quiet c.lh) (list_messages c t)
  unfolding list_messages list_board list_topic
  list_messages-Quiet nil =
      use_handle-Quiet c _
        (λ h. page-SameOwner c.env h (pos 0) (pos 10) (get_root_messages c.env h.storage.db))
  list_messages-Quiet (slice ts) = use_handle-Quiet c _ (λ h.
      page-SameOwner c.env h (pos 0) (pos 10) (get_topic_messages c.env h.storage.db (slice ts)))

  pub handle_board-Quiet : Along (Quiet c.lh) (handle_board c)
  unfolding handle_board
  handle_board-Quiet = search (quiet, laws, list_messages-Quiet) depth 14

  show_thread-Quiet : (s : Bytes) (t : Option Thread.Node) → Along (Quiet c.lh) (show_thread c s t)
  unfolding show_thread
  show_thread-Quiet s none = search (quiet, laws) depth 14
  show_thread-Quiet s (some tree) = search (quiet, laws) depth 14

  search_thread-Quiet :
      (id : EntityId) → Along (Quiet c.lh) (use_search c (λ lh. list_thread c.env lh c.fuel id))
  unfolding list_thread
  search_thread-Quiet id = use_search-Quiet c _ (λ h. moderated_thread-Keeps c.env h _)

  pub handle_thread-Quiet : Along (Quiet c.lh) (handle_thread c)
  unfolding handle_thread
  handle_thread-Quiet = search (quiet, laws, show_thread-Quiet, search_thread-Quiet) depth 14

  or_empty-Quiet : (o : Option (Result (List Operation))) → Along (Quiet c.lh) (or_empty o)
  or_empty-Quiet none = search (quiet, laws)
  or_empty-Quiet (some (ok ops)) = search (quiet, laws)
  or_empty-Quiet (some (err e)) = search (quiet, laws)
  or_empty-Quiet (some fatal) = search (quiet, laws)

  pub handle_list_operations-Quiet : Along (Quiet c.lh) (handle_list_operations c)
  unfolding handle_list_operations
  handle_list_operations-Quiet = search (quiet, laws, or_empty-Quiet) depth 14

  full_history-Quiet : (r : Result (List UserHistory)) → Along (Quiet c.lh) (full_history r)
  full_history-Quiet (ok hs) = search (quiet, laws)
  full_history-Quiet (err e) = search (quiet, laws)
  full_history-Quiet fatal = search (quiet, laws)

  pub handle_peer_history-Quiet : Along (Quiet c.lh) (handle_peer_history c)
  unfolding handle_peer_history
  handle_peer_history-Quiet = search (quiet, laws, full_history-Quiet) depth 14

  full_subscriptions-Quiet : Along (Quiet c.lh) (
      use_handle c
        (λ lh. let (r, p) = get_subscriptions lh.profile in (r, record lh { profile = p })))
  full_subscriptions-Quiet =
      use_handle-Quiet c _ (λ h. SameOwner-with_profile h _ (get_subscriptions-db h.profile))

  list_moderators-Quiet : Along (Quiet c.lh) (use_handle c list_moderators)
  unfolding list_moderators
  list_moderators-Quiet =
      use_handle-Quiet c _ (λ h. SameOwner-with_profile h _ (get_moderators-SameDb h.profile))

  assign_moderators-Quiet : (ms : List EntityId) → Along (Quiet c.lh) (assign_moderators c ms)
  unfolding assign_moderators
  assign_moderators-Quiet [] = search (quiet, laws)
  assign_moderators-Quiet (m ∷ ms) = bind_lem laws (get_handle_lem laws c) (λ lh.
      bind_lem laws (or_panic_lem laws (get_user c.env lh.storage.db m)) (λ u.
        bind_lem laws (assign_moderators-Quiet ms)
          (λ us. done_lem laws (assign_user c.env c.lib u ∷ us))))

  pub handle_profile-Quiet : Along (Quiet c.lh) (handle_profile c)
  unfolding handle_profile
  handle_profile-Quiet =
      search (quiet, laws, full_subscriptions-Quiet, list_moderators-Quiet, assign_moderators-Quiet)
        depth 18
