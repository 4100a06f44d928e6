-- ===== src/Witnesses/OfAccounts.antt =====
-- Registration and login at concrete values.
use dscuss.Prelude.{
  ◌+◌, ◌≡◌, refl, ap, bytes_eq, take, drop, length, all, Bytes, codes, true, false, List, [], ◌∷◌,
  ◌++◌, Option, none, some, ok, err, wrong_nickname, already_registered,
}
use dscuss.Subs.Topic.{Topic, slice, to_string, split}
use dscuss.Entity.{PrivateKey, User}
use dscuss.Entity.Users.{epoch, emerge_user, new_user, is_nickname_valid}
use dscuss.Crypto.Keys.{
  KeyCodec, Decodes, encode_to_pem, block_type, parse_private_key_from_pem,
  parse_private_key_from_der,
}
use dscuss.Storage.{detach_observer, put_entity, put_in_db, notify_observers}
use dscuss.Crypto.{sign}
use dscuss.Owner.Account.{
  Owner, UserDir, Given, register, new, find_dir, read_key, put_subscriptions, new_storage,
  new_profile, new_dir,
}
use dscuss.Owner.Account.Opening.{IsRegistered, is_proper}
use dscuss.Owner.Account.Registering.{new-register, register_wrong_twice}
use dscuss.Node.{LoginHandle}
use dscuss.Sqlite.{UserRow, empty, get_user}
use dscuss.Owner.Profile.{Profile}
use dscuss.Node.Login.{Process, relogin, is_valid, address_list, make_providers}
use dscuss.Witnesses.PeerSamples.{own, known, world}
use dscuss.Peer.Syncing.{idle}
use dscuss.Peer.Receiving.{World}
use dscuss.Peer.Machine.{Peer, is_synced, save_history}
use dscuss.Sqlite.ProfileDatabase.{put_user_history}
use dscuss.Entity.{Time}
use dscuss.Node.Login.{stop_peers, world_of}
use dscuss.Node.Login.Again.{with_histories, IsOpen, relogin_lem, after}
use dscuss.Witnesses.Samples.{sample_env, sample_env-IsLawful, sample_key, sample_profile}

-- The type and the bytes of a block, after the length of the type.
abbrev unpack : Bytes → Option (Bytes × Bytes)
unpack [] = none
unpack (n ∷ s) = some (take n s, drop n s)

abbrev unmarshal : Bytes → Option PrivateKey
unmarshal [] = none
unmarshal (c ∷ k) = some k

abbrev pub sample_codec : KeyCodec
sample_codec = record {
  marshal_ec = λ k. 7 ∷ k;
  parse_ec = unmarshal;
  encode_block = λ t b. length t ∷ (t ++ b);
  decode_block = unpack;
}

taken : (a b : Bytes) → take (length a) (a ++ b) ≡ a
taken [] b = refl
taken (x ∷ a) b = ap (λ s. x ∷ s) (taken a b)

dropped : (a b : Bytes) → drop (length a) (a ++ b) ≡ b
dropped [] b = refl
dropped (x ∷ a) b = dropped a b

sample_codec-Decodes : Decodes sample_codec
sample_codec-Decodes = record {
  parse-marshal = λ k. refl;
  decode-encode = λ t b. rw (taken t b, dropped t b) refl;
}

abbrev given : Given
given = record {
  mkdir_fails = false;
  key = some sample_key;
  write_fails = false;
  proof = some 0;
  now = epoch + 5;
  stored = epoch + 6;
}

abbrev topics : List Topic
topics = slice (codes "go" ∷ []) ∷ slice (codes "os" ∷ []) ∷ []

registered : (register sample_codec sample_env given [] (codes "alice") [] topics).0 ≡ ok tt
unfolding register find_dir emerge_user put_entity put_subscriptions new_storage new_profile new_dir
    encode_to_pem put_in_db notify_observers sign bytes_eq to_string
registered = refl

topics-proper : all is_proper topics ≡ true
unfolding dscuss.Subs.Topic.is_valid bytes_eq dscuss.Subs.Topic.is_tag_valid
    dscuss.Subs.Topic.is_tag_char
topics-proper = refl

new-register_example :
    (o : Owner) × (new sample_codec sample_env
        (register sample_codec sample_env given [] (codes "alice") [] topics).1
        (codes "alice")
      ≡ ok o)
    × IsRegistered sample_env sample_key (codes "alice") [] topics o
new-register_example =
    new-register sample_codec sample_codec-Decodes sample_env sample_env-IsLawful given []
      (codes "alice") [] topics sample_key topics-proper refl registered

with_space : is_nickname_valid (codes "a b") ≡ false
unfolding is_nickname_valid
with_space = refl

no_dir : find_dir [] (codes "a b") ≡ none
unfolding find_dir
no_dir = refl

register_wrong_twice_example :
    ((register sample_codec sample_env given [] (codes "a b") [] topics).0 ≡ err wrong_nickname)
    × (register sample_codec sample_env given
          (register sample_codec sample_env given [] (codes "a b") [] topics).1
          (codes "a b")
          []
          []
        ≡ (
          err already_registered,
          (register sample_codec sample_env given [] (codes "a b") [] topics).1,
        ))
register_wrong_twice_example =
    register_wrong_twice sample_codec sample_env given given [] (codes "a b") [] [] topics []
      sample_key 0 with_space refl no_dir refl refl refl refl

-- A process with the user logged in by the handle 4.
abbrev alice : User
alice = new_user sample_env (codes "alice") [] sample_key 0 epoch (1 ∷ [])

abbrev row_of_alice : UserRow
row_of_alice = record {
  id = 3;
  public_key = sample_key;
  proof = 0;
  nickname = codes "alice";
  info = [];
  timestamp = epoch;
  signature = 1 ∷ [];
  time_stored = 5;
}

abbrev dir_of_alice : UserDir
dir_of_alice = record {
  name = codes "alice";
  priv_key = some (sample_codec.encode_block block_type (7 ∷ sample_key));
  entity_db = empty;
  profile_db = sample_profile.db;
}

abbrev pub handle_of_alice : LoginHandle
handle_of_alice = record {
  user = alice;
  signer = sample_key;
  storage = record {
    db = record empty { users = row_of_alice ∷ [] };
    observers = 1 ∷ [];
    queue = λ c. [];
    capacity = λ c. 5;
  };
  profile = sample_profile;
  last_msg = 7;
  last_oper = 8;
}

abbrev pub logged_in : Process
logged_in = record {
  disk = dir_of_alice ∷ [];
  login = some 4;
  heap = λ h. record { name = codes "alice"; handle = handle_of_alice; providers = [] };
  next = 5;
  last_msg = 0;
  last_oper = 0;
}

logged_in-IsOpen : IsOpen sample_codec sample_env logged_in 4 dir_of_alice
unfolding find_dir bytes_eq read_key parse_private_key_from_pem parse_private_key_from_der get_user
    is_nickname_valid new_user
logged_in-IsOpen = record {
  current = refl;
  found = refl;
  keyed = refl;
  stored = refl;
  named = refl;
  acceptable = refl;
}

-- The pool has a peer whose synchronization is done.
abbrev closed_peers : List (Peer × Time)
closed_peers =
    (
      (let q : Peer = record {
        own = own;
        state = idle;
        known = some known;
        world = world;
        is_gone = false;
      } in
          q),
      9000,
    )
    ∷ []

-- What the peer leaves: its history, and no observer.
abbrev world_left : World
world_left = record {
  storage = record handle_of_alice.storage { observers = [] };
  profile = record sample_profile {
    db =
        put_user_history sample_profile.db
          (record { id = 3; disconnected = 9000; subs = known.subs });
  };
  last_oper = 8;
  written = [];
}

closed_peers-stop : stop_peers (world_of handle_of_alice) closed_peers ≡ some world_left
unfolding stop_peers is_synced save_history detach_observer put_user_history
closed_peers-stop = refl

abbrev listed : Profile
unfolding new_profile new_user
listed = new_profile world_left.profile.db alice.id

from_list : make_providers listed (split (codes "addrlist")) ≡ (ok (address_list ∷ []), listed)
unfolding make_providers split bytes_eq new_profile listed new_user
from_list = refl

relogin_lem_example :
    let (r, q) = relogin sample_codec sample_env (codes "addrlist") logged_in 4 closed_peers in
    (r ≡ ok tt)
    × (is_valid q 4 ≡ true)
    × ((q.heap 4).handle
        ≡ after sample_codec sample_env
            (codes "addrlist")
            logged_in
            4
            dir_of_alice
            logged_in-IsOpen
            closed_peers
            world_left
            closed_peers-stop
            listed)
    × (listed.db ≡ with_histories sample_profile.db closed_peers)
unfolding listed new_profile new_user
relogin_lem_example =
    relogin_lem sample_codec sample_env (codes "addrlist") logged_in 4 dir_of_alice logged_in-IsOpen
      closed_peers world_left closed_peers-stop address_list [] listed from_list
