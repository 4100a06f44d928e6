-- ===== src/Witnesses/PeerSamples.antt =====
-- The sample values of a connection.
use dscuss.Prelude.{codes, true, [], ◌∷◌, none, some, ok}
use dscuss.Entity.{EntityId, User}
use dscuss.Packet.{PacketType, Payload, Packet}
use dscuss.Packet.Checks
use dscuss.Sqlite.{empty}
use dscuss.Env.{Env}
use dscuss.Peer.Receiving.{World}
use dscuss.Peer.Interest.{Known}
use dscuss.Peer.Handshaking.{Own, Introduction, perform}
use dscuss.Packet.Checks.{decode_payload, verify_sig, verify_header_full}
use dscuss.Witnesses.Samples.{sample_env, sample_message, sample_profile, sample_key, only_go}

-- The user with the sample key.
abbrev pub peer_user : User
peer_user = record {
  unsigned = record {
    descriptor = record { typ = 0; id = 3 };
    content = record {
      pub_key = sample_key;
      proof = 0;
      nickname = codes "eve";
      info = [];
      reg_date = 63700000000000000000;
    };
  };
  sig = 4 ∷ 2 ∷ [];
}

abbrev pub decoded : PacketType → Payload
decoded PacketType.user = Payload.user peer_user
decoded PacketType.msg = Payload.message sample_message
decoded PacketType.hello = Payload.hello (record { proto = 1; subs = only_go ∷ [] })
decoded PacketType.req = Payload.req 10
decoded PacketType.ann = Payload.announce 10
decoded PacketType.ack = Payload.ack
decoded _ = Payload.done

abbrev pub peer_env : Env
peer_env = record sample_env { unmarshal = λ t s. some (decoded t) }

abbrev pub own : Own
own = record { user = peer_user; signer = sample_key; out_entity_chan = 1; is_active = true }

abbrev pub packet : PacketType → EntityId → Packet
packet t rcv = Checks.new peer_env t rcv (decoded t) sample_key 1500

abbrev pub introduction : Introduction
introduction = record {
  user_packet = ok (packet PacketType.user 0);
  user_verified = 2000;
  user_sent = 1000;
  user_write = ok tt;
  hello_packet = ok (packet PacketType.hello 3);
  hello_verified = 2000;
  hello_sent = 1000;
  hello_write = ok tt;
  put = 3000;
  validate_peer = λ id. true;
}

abbrev pub world : World
world = record {
  storage = record { db = empty; observers = []; queue = λ c. []; capacity = λ c. 100 };
  profile = sample_profile;
  last_oper = 0;
  written = [];
}

abbrev pub known : Known
known = record { user = peer_user; subs = only_go ∷ []; hist = none }

-- The world with the channel of the peer attached, and after the handshake.
abbrev pub attached : World
attached = record world { storage = record world.storage { observers = 1 ∷ [] } }

abbrev pub shaken : World
shaken = (perform peer_env own introduction attached).1
