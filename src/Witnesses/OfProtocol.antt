-- ===== src/Witnesses/OfProtocol.antt =====
-- The course of a connection at concrete values.
use dscuss.Prelude.{
  ◌≡◌, ◌≢◌, refl, sym, ◌∙◌, Memᴰ, ℕ, Bytes, codes, Bool, true, false, List, [], ◌∷◌, Option, none,
  some, Result, ok, err, fatal, closed_connection,
}
use dscuss.Entity.{UserHistory, Entity}
use dscuss.Subs.Topic.{Topic, nil, slice}
use dscuss.Sqlite.{EntityDatabase}
use dscuss.Peer.Handshaking.{perform}
use dscuss.Peer.Syncing.{handshaking, new_state_active_syncing, sending}
use dscuss.Peer.Machine.{Peer, Step}
use dscuss.Sqlite.OperationTable.{get_operations_stored_after}
use dscuss.Sqlite.ProfileDatabase.{put_user_history, get_user_history}
use dscuss.Sqlite.ProfileDatabase.History.{IsSameHistory, get_user_history-put_user_history}
use dscuss.Peer.Machine.Order.{is_nested, Follows, Step-Follows}
use dscuss.Subs.Subscriptions
use dscuss.Subs.Subscriptions.Reading.{Fresh}
use dscuss.Witnesses.Samples.{
  sample_env-JoinsAll, sample_env-ScansLines, sample_message, sample_profile, only_go,
}
use dscuss.Witnesses.PeerSamples.{peer_env, own, introduction, world, known, attached, shaken}

handshake_ok : perform peer_env own introduction attached ≡ (ok known, shaken)
unfolding perform dscuss.Prelude.bytes_eq dscuss.Sqlite.OperationTable.get_operations_on_user
    dscuss.Subs.Topic.new_topic dscuss.Subs.Topic.is_tag_valid dscuss.Subs.Topic.is_tag_char
handshake_ok = refl

abbrev at_first : Peer
at_first = record {
  own = own;
  state = handshaking;
  known = none;
  world = attached;
  is_gone = false;
}

abbrev at_sync : Peer
at_sync = record {
  own = own;
  state = new_state_active_syncing;
  known = some known;
  world = shaken;
  is_gone = false;
}

shakes : Step peer_env at_first at_sync
shakes = Step.handshaken own none attached shaken false introduction known handshake_ok

Step-Follows_example : Follows true handshaking new_state_active_syncing
unfolding is_nested
Step-Follows_example = Step-Follows peer_env at_first at_sync shakes refl

not_nil : (t : Topic) → Memᴰ t known.subs → t ≢ nil
not_nil t m = λ n. is_nil (sym n ∙ only m)
  where
    only : Memᴰ t (only_go ∷ []) → t ≡ only_go
    only (Memᴰ.head e) = e
    only (Memᴰ.tail u) = elim u [ ]

    is_nil : nil ≡ only_go → ⊥
    is_nil e = cc

known-valid : Subscriptions.is_valid known.subs ≡ true
unfolding Subscriptions.is_valid dscuss.Subs.Topic.is_valid dscuss.Subs.Topic.is_tag_valid
    dscuss.Subs.Topic.is_tag_char
known-valid = refl

known-Fresh : Fresh [] known.subs
unfolding Subscriptions.contains
known-Fresh = (refl, tt)

-- The peer when one of the messages is being sent to it.
abbrev at_sending : Peer
at_sending = record at_sync {
  state = sending (Entity.message sample_message) 8000 new_state_active_syncing;
}

abbrev history : UserHistory
history = record { id = 3; disconnected = 9000; subs = only_go ∷ [] }

get_user_history-put_user_history_example :
    (h' : UserHistory) × (get_user_history peer_env (put_user_history sample_profile.db history) 3
      ≡ ok h')
    × IsSameHistory history h'
get_user_history-put_user_history_example =
    get_user_history-put_user_history peer_env sample_profile.db history sample_env-JoinsAll
      sample_env-ScansLines known-valid known-Fresh not_nil
