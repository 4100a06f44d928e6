-- ===== src/Peer/Handshaking/Introduced.antt =====
-- p2p/peer/state_handshaking.go: what is known after a handshake.
use dscuss.Prelude.{
  ◌≡◌, refl, ap, sym, ◌∙◌, Bool, true, false, not, ◌==◌, if◌then◌else◌, Option, none, some, Result,
  Outcome, ok, err, fatal, protocol_violation, unsupported_protocol,
}
use dscuss.Entity.{User, zero_id}
use dscuss.Entity.Users.{is_user_valid}
use dscuss.Subs.Subscriptions
use dscuss.Subs.Subscriptions.{Subscriptions}
use dscuss.Packet.{PacketType, Payload, PayloadHello, Packet}
use dscuss.Packet.Checks.{verify_sig, verify_header, decode_payload}
use dscuss.Env.{Env}
use dscuss.Sqlite.{EntityDatabase}
use dscuss.Storage.{Storage}
use dscuss.Owner.Profile.{Profile, get_subscriptions}
use dscuss.Owner.View.{is_user_banned}
use dscuss.Peer.Receiving.{World}
use dscuss.Peer.Handshaking.{
  protocol_version, Own, Introduction, Hand, Shaken, write_to, perf_unless_err, wrote, send_user,
  if_not_banned, if_true, process_user, user_in, user_from, read_and_process_user, hello_to,
  send_hello, process_hello, hello_in, hello_from, read_and_process_hello, exchange,
}

abbrev ok_value : Result Bool → Bool
ok_value (ok b) = b
ok_value (err e) = false
ok_value fatal = false

-- The user is the one that the peer introduced, in a packet signed by its key.
pub record IsTrusted (env : Env) (i : Introduction) (db : EntityDatabase) (u : User) : Type 0 where
  pub packet : Packet
  pub read : i.user_packet ≡ ok packet
  pub headed : verify_header PacketType.user packet zero_id i.user_verified ≡ true
  pub valid : is_user_valid env u ≡ ok true
  pub signed : verify_sig env packet u.pub_key ≡ ok true
  pub profile : Profile
  pub not_banned : (is_user_banned env db profile u.id).0 ≡ ok false

module _ (env : Env) (own : Own) (i : Introduction) (st : Storage) where
  abbrev pub Trusts : Option User → Type 0
  Trusts none = Unit {0}
  Trusts (some u) = IsTrusted env i st.db u

  pub record Inv (h : Hand) : Type 0 where
    pub same_storage : h.world.storage ≡ st
    pub trusts : Trusts h.u

  perf_unless_err-Inv :
      (r : Shaken) (f : Hand → Shaken)
      → Inv r.1
      → ((h : Hand) → Inv h → Inv (f h).1)
      → Inv (perf_unless_err r f).1
  perf_unless_err-Inv (ok u, h) f v k = k h v
  perf_unless_err-Inv (err e, h) f v k = v
  perf_unless_err-Inv (fatal, h) f v k = v

  wrote-Inv : (o : Outcome) (h : Hand) (w : World) → Inv h → w.storage ≡ st → Inv (wrote o h w).1
  wrote-Inv (ok u) h w v e = record { same_storage = e; trusts = v.trusts }
  wrote-Inv (err x) h w v e = v
  wrote-Inv fatal h w v e = v

  if_true-Inv :
      (b : Result Bool) (h : Hand) (next : Shaken)
      → Inv h
      → (b ≡ ok true → Inv next.1)
      → Inv (if_true b h next).1
  if_true-Inv (ok true) h next v k = k refl
  if_true-Inv (ok false) h next v k = v
  if_true-Inv (err e) h next v k = v
  if_true-Inv fatal h next v k = v

  if_not_banned-Inv :
      (h : Hand) (u : User) (r : Result Bool × Profile)
      → Inv h
      → (r.0 ≡ ok false → IsTrusted env i st.db u)
      → Inv (if_not_banned h u r).1
  if_not_banned-Inv h u (ok true, p) v k = record {
    same_storage = v.same_storage;
    trusts = v.trusts;
  }
  if_not_banned-Inv h u (ok false, p) v k = record {
    same_storage = v.same_storage;
    trusts = k refl;
  }
  if_not_banned-Inv h u (err e, p) v k = v
  if_not_banned-Inv h u (fatal, p) v k = v

  send_user-Inv : (h : Hand) → Inv h → Inv (send_user env own i h).1
  unfolding send_user write_to
  send_user-Inv h v = wrote-Inv i.user_write h _ v v.same_storage

  user_in-Inv :
      (h : Hand) (pkt : Packet) (p : Result Payload)
      → Inv h
      → i.user_packet ≡ ok pkt
      → verify_header PacketType.user pkt zero_id i.user_verified ≡ true
      → Inv (user_in env h pkt p).1
  unfolding user_in process_user
  user_in-Inv h pkt (ok (Payload.user u)) v r e = if_true-Inv (is_user_valid env u) h _ v (λ valid.
      if_true-Inv (verify_sig env pkt u.pub_key) h _ v (λ signed.
        if_not_banned-Inv h u (is_user_banned env h.world.storage.db h.world.profile u.id) v
          (λ banned. record {
            packet = pkt;
            read = r;
            headed = e;
            valid = valid;
            signed = signed;
            profile = h.world.profile;
            not_banned =
                ap (λ s. (is_user_banned env s.db h.world.profile u.id).0) (sym v.same_storage)
                ∙ banned;
          })))
  user_in-Inv h pkt (ok pld) v r e = v
  user_in-Inv h pkt (err x) v r e = v
  user_in-Inv h pkt fatal v r e = v

  read_and_process_user-Inv : (h : Hand) → Inv h → Inv (read_and_process_user env i h).1
  unfolding read_and_process_user user_from
  read_and_process_user-Inv h v = by_packet i.user_packet refl
    where
      by_packet : (r : Result Packet) → i.user_packet ≡ r → Inv (user_from env i h r).1
      by_packet (ok pkt) e =
          if_true-Inv (ok (verify_header PacketType.user pkt zero_id i.user_verified)) h _ v
            (λ q. user_in-Inv h pkt (decode_payload env pkt) v e (ap ok_value q))
      by_packet (err x) e = v
      by_packet fatal e = v

  hello_to-Inv :
      (h : Hand) (u : Option User) (r : Result Subscriptions × Profile)
      → Inv h
      → Inv (hello_to env own i h u r).1
  unfolding write_to
  hello_to-Inv h (some u) (ok s, p) v =
      wrote-Inv i.hello_write _ _ (record { same_storage = v.same_storage; trusts = v.trusts })
        v.same_storage
  hello_to-Inv h (some u) (err e, p) v = v
  hello_to-Inv h (some u) (fatal, p) v = v
  hello_to-Inv h none (ok s, p) v = v
  hello_to-Inv h none (err e, p) v = v
  hello_to-Inv h none (fatal, p) v = v

  send_hello-Inv : (h : Hand) → Inv h → Inv (send_hello env own i h).1
  unfolding send_hello
  send_hello-Inv h v = hello_to-Inv h h.u (get_subscriptions h.world.profile) v

  if-Inv : (b : Bool) (x y : Shaken) → Inv x.1 → Inv y.1 → Inv (if b then x else y).1
  if-Inv true x y p q = p
  if-Inv false x y p q = q

  process_hello-Inv : (h : Hand) (pld : PayloadHello) → Inv h → Inv (process_hello h pld).1
  unfolding process_hello
  process_hello-Inv h pld v =
      let old : Shaken = (err unsupported_protocol, h) in
      let good : Shaken = (ok tt, record h { s = pld.subs }) in
      let same = not (pld.proto == protocol_version) in
      if-Inv (not (Subscriptions.is_valid pld.subs)) (err protocol_violation, h)
        (if same then old else good) v
        (if-Inv same old good v (record { same_storage = v.same_storage; trusts = v.trusts }))

  hello_in-Inv : (h : Hand) (p : Result Payload) → Inv h → Inv (hello_in h p).1
  unfolding hello_in
  hello_in-Inv h (ok (Payload.hello pld)) v = process_hello-Inv h pld v
  hello_in-Inv h (ok pld) v = v
  hello_in-Inv h (err e) v = v
  hello_in-Inv h fatal v = v

  hello_from-Inv :
      (h : Hand) (u : Option User) (r : Result Packet) → Inv h → Inv (hello_from env own i h u r).1
  unfolding hello_from
  hello_from-Inv h (some u) (ok pkt) v = if_true-Inv (verify_sig env pkt u.pub_key) h _ v (λ signed.
      if_true-Inv (ok (verify_header PacketType.hello pkt own.user.id i.hello_verified)) h _ v
        (λ headed. hello_in-Inv h (decode_payload env pkt) v))
  hello_from-Inv h (some u) (err e) v = v
  hello_from-Inv h (some u) fatal v = v
  hello_from-Inv h none (ok pkt) v = v
  hello_from-Inv h none (err e) v = v
  hello_from-Inv h none fatal v = v

  read_and_process_hello-Inv : (h : Hand) → Inv h → Inv (read_and_process_hello env own i h).1
  unfolding read_and_process_hello
  read_and_process_hello-Inv h v = hello_from-Inv h h.u i.hello_packet v

  pub exchange-Inv : (h : Hand) → Inv h → Inv (exchange env own i h).1
  unfolding exchange
  exchange-Inv h v =
      let sent : Shaken = send_user env own i h in
      let read : Shaken = read_and_process_user env i h in
      let both : Shaken = perf_unless_err sent (read_and_process_user env i) in
      let greeted : Shaken = perf_unless_err both (send_hello env own i) in
      let known : Shaken = perf_unless_err read (send_user env own i) in
      let heard : Shaken = perf_unless_err known (read_and_process_hello env own i) in
      if-Inv own.is_active (perf_unless_err greeted (read_and_process_hello env own i))
        (perf_unless_err heard (send_hello env own i))
        (perf_unless_err-Inv greeted (read_and_process_hello env own i)
          (perf_unless_err-Inv both (send_hello env own i)
            (perf_unless_err-Inv sent (read_and_process_user env i) (send_user-Inv h v)
              read_and_process_user-Inv)
            send_hello-Inv)
          read_and_process_hello-Inv)
        (perf_unless_err-Inv heard (send_hello env own i)
          (perf_unless_err-Inv known (read_and_process_hello env own i)
            (perf_unless_err-Inv read (send_user env own i) (read_and_process_user-Inv h v)
              send_user-Inv)
            read_and_process_hello-Inv)
          send_hello-Inv)
