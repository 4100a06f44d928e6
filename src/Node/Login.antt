-- ===== src/Node/Login.antt =====
-- dscuss.go: Login, Logout, Relogin. A handle is a pointer, so a process keeps what each one points
-- to, and the variable `login` is one of them or nil. The databases of an owner are files: what a
-- handle has made of them is in the directory when it is closed. p2p/peer_pool.go: Stop, which closes
-- the peers of the pool before that; the peers and the times at which they are closed are given.
pub mod Again
use dscuss.Prelude.{
  ℕ, suc, ◌==◌, Bytes, bytes_eq, codes, Bool, true, false, not, List, [], ◌∷◌, if◌then◌else◌,
  Option, none, some, Result, Outcome, ok, err, fatal, already_logged_in, wrong_nickname,
}
use dscuss.Subs.Topic.{split}
use dscuss.Subs.Subscriptions.{Subscriptions}
use dscuss.Entity.{Time}
use dscuss.Entity.Users.{is_nickname_valid}
use dscuss.Env.{Env}
use dscuss.Crypto.Keys.{KeyCodec}
use dscuss.Owner.Profile.{Profile, get_subscriptions}
use dscuss.Owner.Account
use dscuss.Owner.Account.{UserDir, Owner}
use dscuss.Node.{LoginHandle}
use dscuss.Peer.Receiving.{World}
use dscuss.Peer.Machine.{Peer, close}

-- An address provider that is started; the crawler of the DHT gets the subscriptions.
pub data AddressProvider : Type 0 where
  address_list : AddressProvider
  dht_crawler : Subscriptions → AddressProvider

-- What a handle points to, and the nickname that its directory is named by.
pub record Opened : Type 0 where
  pub name : Bytes
  pub handle : LoginHandle
  pub providers : List AddressProvider

-- The two times are `lastMsgTimestamp` and `lastOperTimestamp` while nobody is logged in.
pub record Process : Type 0 where
  pub disk : List UserDir
  pub login : Option ℕ
  pub heap : ℕ → Opened
  pub next : ℕ
  pub last_msg : Time
  pub last_oper : Time

unfoldable pub is_logged_in : Process → Bool
is_logged_in p = elim p.login [ none ↦ false | some h ↦ true ]

-- `LoginHandle.IsValid`, of a handle that is not nil.
unfoldable pub is_valid : Process → ℕ → Bool
is_valid p lh = elim p.login [ none ↦ false | some h ↦ lh == h ]

abbrev pub with_provider :
    AddressProvider
    → Result (List AddressProvider) × Profile
    → Result (List AddressProvider) × Profile
with_provider a (ok aps, p) = (ok (a ∷ aps), p)
with_provider a (err e, p) = (err e, p)
with_provider a (fatal, p) = (fatal, p)

-- The loop of `Login` over the names of the address providers; an unknown one is passed over.
unfoldable pub make_providers : Profile → List Bytes → Result (List AddressProvider) × Profile
unfolding get_subscriptions
make_providers p [] = (ok [], p)
make_providers p (name ∷ names) = elim (bytes_eq name (codes "addrlist")) [
  | true ↦ with_provider address_list (make_providers p names)
  | false ↦ elim (bytes_eq name (codes "dht")) [
    | true ↦
        let (r, p') = get_subscriptions p in
        elim r [
          | ok s ↦ with_provider (dht_crawler s) (make_providers p' names)
          | err e ↦ (err e, p')
          | fatal ↦ (fatal, p')
        ]
    | false ↦ make_providers p names
  ]
]

-- The new handle, which the variable `login` points to.
abbrev pub start :
    Process → Bytes → Owner → Result (List AddressProvider) × Profile → Result ℕ × Process
start p nickname o (ok [], prf) = (fatal, p)
start p nickname o (ok (a ∷ aps), prf) =
    let lh : LoginHandle = record {
      user = o.user;
      signer = o.signer;
      storage = o.storage;
      profile = prf;
      last_msg = p.last_msg;
      last_oper = p.last_oper;
    } in
    let opened : Opened = record { name = nickname; handle = lh; providers = a ∷ aps } in
    (
      ok p.next,
      record p {
        login = some p.next;
        heap = λ h. if h == p.next then opened else p.heap h;
        next = suc p.next;
      },
    )
start p nickname o (err e, prf) = (err e, p)
start p nickname o (fatal, prf) = (fatal, p)

abbrev pub open_owner : Process → Bytes → Bytes → Result Owner → Result ℕ × Process
unfolding make_providers split
open_owner p configured nickname (ok o) =
    start p nickname o (make_providers o.profile (split configured))
open_owner p configured nickname (err e) = (err e, p)
open_owner p configured nickname fatal = (fatal, p)

-- `configured` is cfg.Network.AddressProvider.
unfoldable pub login : KeyCodec → Env → Bytes → Process → Bytes → Result ℕ × Process
unfolding open_owner is_logged_in is_nickname_valid Account.new
login c env configured p nickname =
    if is_logged_in p
    then (err already_logged_in, p)
    else if not (is_nickname_valid nickname)
    then (err wrong_nickname, p)
    else open_owner p configured nickname (Account.new c env p.disk nickname)

-- The files of a handle that is closed.
unfoldable pub save : List UserDir → Opened → List UserDir
save [] o = []
save (d ∷ disk) o =
    let rest = save disk o in
    if bytes_eq d.name o.name
    then record d { entity_db = o.handle.storage.db; profile_db = o.handle.profile.db } ∷ disk
    else d ∷ rest

-- What the peers of a handle share.
abbrev pub world_of : LoginHandle → World
world_of h = record {
  storage = h.storage;
  profile = h.profile;
  last_oper = h.last_oper;
  written = [];
}

-- `Stop` of the peer pool: its peers are closed in any order, here that of the list, each at its time.
unfoldable pub stop_peers : World → List (Peer × Time) → Option World
unfolding close
stop_peers w [] = some w
stop_peers w ((p, now) ∷ ps) = elim (close (record p { world = w }) now) [
  | none ↦ none
  | some w' ↦ stop_peers w' ps
]

abbrev pub stopped : Opened → World → Opened
stopped o w = record o { handle = record o.handle { storage = w.storage; profile = w.profile } }

-- `Close` of the owner, once the pool is stopped; none is the panic of a peer.
abbrev pub close_owner : Process → ℕ → Option World → Outcome × Process
unfolding save
close_owner p lh none = (fatal, p)
close_owner p lh (some w) =
    let o = stopped (p.heap lh) w in
    (
      ok tt,
      record p {
        disk = save p.disk o;
        login = none;
        heap = λ h. if h == lh then o else p.heap h;
        last_msg = o.handle.last_msg;
        last_oper = o.handle.last_oper;
      },
    )

unfoldable pub logout : Process → ℕ → List (Peer × Time) → Outcome × Process
unfolding is_valid stop_peers close_owner
logout p lh peers =
    if not (is_valid p lh)
    then (fatal, p)
    else close_owner p lh (stop_peers (world_of (p.heap lh).handle) peers)

-- `*lh = *newLoginHandle; login = lh`
abbrev pub move_to : ℕ → Result ℕ × Process → Outcome × Process
move_to lh (ok new, p) =
    (ok tt, record p { login = some lh; heap = λ h. if h == lh then p.heap new else p.heap h })
move_to lh (err e, p) = (err e, p)
move_to lh (fatal, p) = (fatal, p)

abbrev pub login_again : KeyCodec → Env → Bytes → ℕ → Bytes → Outcome × Process → Outcome × Process
unfolding login
login_again c env configured lh nick (ok u, p) = move_to lh (login c env configured p nick)
login_again c env configured lh nick (err e, p) = (err e, p)
login_again c env configured lh nick (fatal, p) = (fatal, p)

unfoldable pub relogin :
    KeyCodec → Env → Bytes → Process → ℕ → List (Peer × Time) → Outcome × Process
unfolding login_again logout
relogin c env configured p lh peers =
    login_again c env configured lh (p.heap lh).handle.user.nickname (logout p lh peers)
