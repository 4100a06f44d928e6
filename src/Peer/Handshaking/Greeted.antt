-- ===== src/Peer/Handshaking/Greeted.antt =====
-- p2p/peer/state_handshaking.go: the subscriptions of the peer.
use dscuss.Prelude.{
  ◌≡◌, refl, sym, Bool, true, false, not, ◌==◌, if◌then◌else◌, Option, none, some, Result, Outcome,
  ok, err, fatal, protocol_violation, unsupported_protocol,
}
use dscuss.Entity.{User}
use dscuss.Subs.Subscriptions
use dscuss.Subs.Subscriptions.{Subscriptions}
use dscuss.Packet.{PacketType, Payload, PayloadHello, Packet}
use dscuss.Packet.Checks.{verify_sig, verify_header, decode_payload}
use dscuss.Env.{Env}
use dscuss.Owner.Profile.{Profile, get_subscriptions}
use dscuss.Peer.Receiving.{World}
use dscuss.Peer.Handshaking.{
  protocol_version, Own, Introduction, Hand, Shaken, perf_unless_err, wrote, if_true, process_hello,
  send_user, read_and_process_user, hello_to, send_hello, hello_in, hello_from,
  read_and_process_hello, exchange,
}

-- Where the step succeeds, the subscriptions of the peer are valid.
abbrev pub HasSubs : Shaken → Type 0
HasSubs (ok u, h) = Subscriptions.is_valid h.s ≡ true
HasSubs (err e, h) = Unit {0}
HasSubs (fatal, h) = Unit {0}

if-HasSubs :
    (b : Bool) (x y : Shaken)
    → (b ≡ true → HasSubs x)
    → (b ≡ false → HasSubs y)
    → HasSubs (if b then x else y)
if-HasSubs true x y p q = p refl
if-HasSubs false x y p q = q refl

wrote-HasSubs :
    (o : Outcome) (h : Hand) (w : World) → Subscriptions.is_valid h.s ≡ true → HasSubs (wrote o h w)
wrote-HasSubs (ok u) h w v = v
wrote-HasSubs (err e) h w v = tt
wrote-HasSubs fatal h w v = tt

if_true-HasSubs :
    (b : Result Bool) (h : Hand) (next : Shaken) → HasSubs next → HasSubs (if_true b h next)
if_true-HasSubs (ok true) h next v = v
if_true-HasSubs (ok false) h next v = tt
if_true-HasSubs (err e) h next v = tt
if_true-HasSubs fatal h next v = tt

-- A step that keeps the subscriptions valid, and one that makes them so.
keeps-HasSubs :
    (r : Shaken) (f : Hand → Shaken)
    → HasSubs r
    → ((h : Hand) → Subscriptions.is_valid h.s ≡ true → HasSubs (f h))
    → HasSubs (perf_unless_err r f)
keeps-HasSubs (ok u, h) f v k = k h v
keeps-HasSubs (err e, h) f v k = tt
keeps-HasSubs (fatal, h) f v k = tt

makes-HasSubs :
    (r : Shaken) (f : Hand → Shaken) → ((h : Hand) → HasSubs (f h)) → HasSubs (perf_unless_err r f)
makes-HasSubs (ok u, h) f k = k h
makes-HasSubs (err e, h) f k = tt
makes-HasSubs (fatal, h) f k = tt

holds_of_not : (b : Bool) → not b ≡ false → b ≡ true
holds_of_not true e = refl
holds_of_not false e = sym e

module _ (env : Env) (own : Own) (i : Introduction) where
  hello_to-HasSubs :
      (h : Hand) (u : Option User) (r : Result Subscriptions × Profile)
      → Subscriptions.is_valid h.s ≡ true
      → HasSubs (hello_to env own i h u r)
  unfolding hello_to
  hello_to-HasSubs h (some u) (ok s, p) v = wrote-HasSubs i.hello_write _ _ v
  hello_to-HasSubs h (some u) (err e, p) v = tt
  hello_to-HasSubs h (some u) (fatal, p) v = tt
  hello_to-HasSubs h none (ok s, p) v = tt
  hello_to-HasSubs h none (err e, p) v = tt
  hello_to-HasSubs h none (fatal, p) v = tt

  send_hello-HasSubs :
      (h : Hand) → Subscriptions.is_valid h.s ≡ true → HasSubs (send_hello env own i h)
  unfolding send_hello
  send_hello-HasSubs h v = hello_to-HasSubs h h.u (get_subscriptions h.world.profile) v

  process_hello-HasSubs : (h : Hand) (pld : PayloadHello) → HasSubs (process_hello h pld)
  unfolding process_hello
  process_hello-HasSubs h pld =
      let old : Shaken = (err unsupported_protocol, h) in
      let good : Shaken = (ok tt, record h { s = pld.subs }) in
      let same = not (pld.proto == protocol_version) in
      if-HasSubs (not (Subscriptions.is_valid pld.subs)) (err protocol_violation, h)
        (if same then old else good) (λ e. tt)
        (λ v. if-HasSubs same old good (λ e. tt) (λ e. holds_of_not _ v))

  hello_in-HasSubs : (h : Hand) (p : Result Payload) → HasSubs (hello_in h p)
  unfolding hello_in
  hello_in-HasSubs h (ok (Payload.hello pld)) = process_hello-HasSubs h pld
  hello_in-HasSubs h (ok pld) = tt
  hello_in-HasSubs h (err e) = tt
  hello_in-HasSubs h fatal = tt

  hello_from-HasSubs :
      (h : Hand) (u : Option User) (r : Result Packet) → HasSubs (hello_from env own i h u r)
  unfolding hello_from
  hello_from-HasSubs h (some u) (ok pkt) = if_true-HasSubs (verify_sig env pkt u.pub_key) h _ (
      if_true-HasSubs (ok (verify_header PacketType.hello pkt own.user.id i.hello_verified)) h _
        (hello_in-HasSubs h (decode_payload env pkt)))
  hello_from-HasSubs h (some u) (err e) = tt
  hello_from-HasSubs h (some u) fatal = tt
  hello_from-HasSubs h none (ok pkt) = tt
  hello_from-HasSubs h none (err e) = tt
  hello_from-HasSubs h none fatal = tt

  pub exchange-HasSubs : (h : Hand) → HasSubs (exchange env own i h)
  unfolding exchange read_and_process_hello
  exchange-HasSubs h =
      let greeted : Shaken =
        perf_unless_err (perf_unless_err (send_user env own i h) (read_and_process_user env i))
          (send_hello env own i) in
      let known : Shaken = perf_unless_err (read_and_process_user env i h) (send_user env own i) in
      let heard : Shaken = perf_unless_err known (read_and_process_hello env own i) in
      let read : (g : Hand) → HasSubs (read_and_process_hello env own i g) =
        λ g. hello_from-HasSubs g g.u i.hello_packet in
      if-HasSubs own.is_active (perf_unless_err greeted (read_and_process_hello env own i))
        (perf_unless_err heard (send_hello env own i))
        (λ e. makes-HasSubs greeted (read_and_process_hello env own i) read)
        (λ e.
          keeps-HasSubs heard (send_hello env own i)
            (makes-HasSubs known (read_and_process_hello env own i) read) send_hello-HasSubs)
