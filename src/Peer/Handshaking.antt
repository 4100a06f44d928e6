-- ===== src/Peer/Handshaking.antt =====
-- p2p/peer/state_handshaking.go. `perfUnlessErr` goes on while there is no error.
pub mod Introduced
pub mod Stored
pub mod Greeted
pub mod Agreed
use dscuss.Prelude.{
  ℕ, Bool, true, false, List, [], ◌∷◌, not, ◌&&◌, ◌==◌, if◌then◌else◌, Option, none, some, Result,
  Outcome, ok, err, fatal, protocol_violation, user_banned, unsupported_protocol, invalid_peer,
  Error,
}
use dscuss.Entity.{EntityId, Time, User, UserHistory, PrivateKey, zero_id, Entity}
use dscuss.Entity
use dscuss.Entity.Users.{is_user_valid}
use dscuss.Subs.Subscriptions
use dscuss.Subs.Subscriptions.{Subscriptions}
use dscuss.Packet.{PacketType, Payload, PayloadHello, Packet}
use dscuss.Packet
use dscuss.Packet.Checks
use dscuss.Packet.Checks.{verify_sig, verify_header, decode_payload}
use dscuss.Env.{Env}
use dscuss.Sqlite.{has_user}
use dscuss.Sqlite.ProfileDatabase.{get_user_history}
use dscuss.Storage.{Storage, put_entity}
use dscuss.Owner.Profile.{Profile, get_subscriptions}
use dscuss.Owner.View.{is_user_banned}
use dscuss.Peer.Receiving.{Session, World}
use dscuss.Peer.Receiving.Performing.{if_ok}
use dscuss.Peer.Interest.{Known}

abbrev pub protocol_version : ℕ
protocol_version = 1

-- The node's own user and key, the channel to this peer, and the direction of the connection.
pub record Own : Type 0 where
  pub user : User
  pub signer : PrivateKey
  pub out_entity_chan : ℕ
  pub is_active : Bool

-- What the state gets from outside: the packets that are read, the outcomes of the writes, the
-- readings of the clock, and the answer of the validator.
pub record Introduction : Type 0 where
  pub user_packet : Result Packet
  pub user_verified : Time
  pub user_sent : Time
  pub user_write : Outcome
  pub hello_packet : Result Packet
  pub hello_verified : Time
  pub hello_sent : Time
  pub hello_write : Outcome
  pub put : Time
  pub validate_peer : EntityId → Bool

-- The fields `u` and `s` of the state; nil before they are read.
pub record Hand : Type 0 where
  pub u : Option User
  pub s : Subscriptions
  pub world : World

unfoldable pub write_to : Env → Own → EntityId → World → PacketType → Payload → Time → World
unfolding Checks.new
write_to env own rcv w t pld now = record w {
  written = Checks.new env t rcv pld own.signer now ∷ w.written;
}

-- The result of a step and the state after it.
abbrev pub Shaken : Type 0
Shaken = Outcome × Hand

abbrev pub perf_unless_err : Shaken → (Hand → Shaken) → Shaken
perf_unless_err (ok u, h) f = f h
perf_unless_err (err e, h) f = (err e, h)
perf_unless_err (fatal, h) f = (fatal, h)

abbrev pub wrote : Outcome → Hand → World → Shaken
wrote (ok u) h w = (ok u, record h { world = w })
wrote (err e) h w = (err e, h)
wrote fatal h w = (fatal, h)

unfoldable pub send_user : Env → Own → Introduction → Hand → Shaken
unfolding write_to
send_user env own i h =
    wrote i.user_write h
      (write_to env own zero_id h.world PacketType.user (Payload.user own.user) i.user_sent)

abbrev pub if_not_banned : Hand → User → Result Bool × Profile → Shaken
if_not_banned h u (ok true, p) =
    (err user_banned, record h { world = record h.world { profile = p } })
if_not_banned h u (ok false, p) =
    (ok tt, record h { u = some u; world = record h.world { profile = p } })
if_not_banned h u (err e, p) = (fatal, h)
if_not_banned h u (fatal, p) = (fatal, h)

-- A user that is not valid, or a packet that it has not signed, is a violation of the protocol.
abbrev pub if_true : Result Bool → Hand → Shaken → Shaken
if_true (ok true) h next = next
if_true (ok false) h next = (err protocol_violation, h)
if_true (err e) h next = (err protocol_violation, h)
if_true fatal h next = (fatal, h)

unfoldable pub process_user : Env → Hand → Packet → User → Shaken
unfolding is_user_valid verify_sig is_user_banned
process_user env h pkt u = if_true (is_user_valid env u) h (
    if_true (verify_sig env pkt u.pub_key) h
      (if_not_banned h u (is_user_banned env h.world.storage.db h.world.profile u.id)))

abbrev pub user_in : Env → Hand → Packet → Result Payload → Shaken
unfolding process_user
user_in env h pkt (ok (Payload.user u)) = process_user env h pkt u
user_in env h pkt (ok pld) = (fatal, h)
user_in env h pkt (err e) = (err protocol_violation, h)
user_in env h pkt fatal = (fatal, h)

abbrev pub user_from : Env → Introduction → Hand → Result Packet → Shaken
unfolding user_in verify_header decode_payload
user_from env i h (ok pkt) =
    if_true (ok (verify_header PacketType.user pkt zero_id i.user_verified)) h
      (user_in env h pkt (decode_payload env pkt))
user_from env i h (err e) = (err e, h)
user_from env i h fatal = (fatal, h)

unfoldable pub read_and_process_user : Env → Introduction → Hand → Shaken
unfolding user_from
read_and_process_user env i h = user_from env i h i.user_packet

abbrev pub hello_to :
    Env → Own → Introduction → Hand → Option User → Result Subscriptions × Profile → Shaken
unfolding write_to
hello_to env own i h (some u) (ok s, p) =
    let w = record h.world { profile = p } in
    let pld = Payload.hello (record { proto = protocol_version; subs = s }) in
    wrote i.hello_write (record h { world = w })
      (write_to env own u.id w PacketType.hello pld i.hello_sent)
hello_to env own i h u (r, p) = (fatal, h)

unfoldable pub send_hello : Env → Own → Introduction → Hand → Shaken
unfolding hello_to get_subscriptions
send_hello env own i h = hello_to env own i h h.u (get_subscriptions h.world.profile)

-- `PayloadHello.IsValid`, then the version.
unfoldable pub process_hello : Hand → PayloadHello → Shaken
unfolding Subscriptions.is_valid
process_hello h pld =
    if not (Subscriptions.is_valid pld.subs)
    then (err protocol_violation, h)
    else if not (pld.proto == protocol_version)
    then (err unsupported_protocol, h)
    else (ok tt, record h { s = pld.subs })

abbrev pub hello_in : Hand → Result Payload → Shaken
unfolding process_hello
hello_in h (ok (Payload.hello pld)) = process_hello h pld
hello_in h (ok pld) = (fatal, h)
hello_in h (err e) = (err protocol_violation, h)
hello_in h fatal = (fatal, h)

abbrev pub hello_from : Env → Own → Introduction → Hand → Option User → Result Packet → Shaken
unfolding hello_in verify_sig verify_header decode_payload
hello_from env own i h (some u) (ok pkt) = if_true (verify_sig env pkt u.pub_key) h (
    if_true (ok (verify_header PacketType.hello pkt own.user.id i.hello_verified)) h
      (hello_in h (decode_payload env pkt)))
hello_from env own i h (some u) (err e) = (err e, h)
hello_from env own i h none (err e) = (err e, h)
hello_from env own i h u pkt = (fatal, h)

unfoldable pub read_and_process_hello : Env → Own → Introduction → Hand → Shaken
unfolding hello_from
read_and_process_hello env own i h = hello_from env own i h h.u i.hello_packet

-- The part of `finalize` after the user is stored.
abbrev pub validated :
    Env → Introduction → User → Subscriptions → World → Result UserHistory → Result Known × World
validated env i u s w hist =
    if not (i.validate_peer u.id) then (err invalid_peer, w) else elim hist [
      | ok h ↦ (ok (record { user = u; subs = s; hist = some h }), w)
      | err Error.no_user_history ↦ (ok (record { user = u; subs = s; hist = none }), w)
      | err e ↦ (fatal, w)
      | fatal ↦ (fatal, w)
    ]

abbrev pub stored_user : Own → Introduction → User → World → Outcome × World
unfolding has_user put_entity
stored_user own i u w =
    if has_user w.storage.db u.id
    then (ok tt, w)
    else let (r, st) = put_entity w.storage (Entity.user u) (some own.out_entity_chan) i.put in
      (r, record w { storage = st })

abbrev pub after_put :
    Env → Introduction → User → Subscriptions → Outcome × World → Result Known × World
unfolding get_user_history
after_put env i u s (ok x, w) = validated env i u s w (get_user_history env w.profile.db u.id)
after_put env i u s (r, w) = (fatal, w)

abbrev pub finalize_user : Env → Own → Introduction → Hand → Option User → Result Known × World
unfolding after_put stored_user
finalize_user env own i h (some u) = after_put env i u h.s (stored_user own i u h.world)
finalize_user env own i h none = (fatal, h.world)

-- `finalize`; what it sets in `Peer` is returned.
unfoldable pub finalize : Env → Own → Introduction → Hand → Result Known × World
unfolding finalize_user
finalize env own i h = finalize_user env own i h h.u

unfoldable pub exchange : Env → Own → Introduction → Hand → Shaken
unfolding send_user read_and_process_user send_hello read_and_process_hello
exchange env own i h =
    let read_user = read_and_process_user env i in
    let read_hello = read_and_process_hello env own i in
    if own.is_active
    then perf_unless_err
        (perf_unless_err (perf_unless_err (send_user env own i h) read_user) (send_hello env own i))
        read_hello
    else perf_unless_err
        (perf_unless_err (perf_unless_err (read_user h) (send_user env own i)) read_hello)
        (send_hello env own i)

abbrev pub if_introduced : Env → Own → Introduction → Shaken → Result Known × World
unfolding finalize
if_introduced env own i (ok x, h) = finalize env own i h
if_introduced env own i (err e, h) = (err e, h.world)
if_introduced env own i (fatal, h) = (fatal, h.world)

-- `perform`; the next state is the active or the passive part of the synchronization.
unfoldable pub perform : Env → Own → Introduction → World → Result Known × World
unfolding exchange if_introduced
perform env own i w =
    if_introduced env own i (exchange env own i (record { u = none; s = []; world = w }))
