-- ===== src/Witnesses/OfNetwork.antt =====
-- Connections at concrete values.
use dscuss.Network.Transfer.{Call, AllFit, transfer, transfer_bounded, max_packet_size}
use dscuss.Prelude.{
  List, ◌+◌, ◌≤◌, Bool, Option, none, ℕ, ◌≡◌, refl, arith, true, false, [], ◌∷◌, some, bytes_eq,
  codes, if◌then◌else◌,
}
use dscuss.Network.ConnectionProvider.{
  Connection, address_found, Address, Provider, new, establish, load, connected, new_connection,
  close_connection, default_bootstrap_address,
}
use dscuss.Network.ConnectionProvider
use dscuss.Network.PeerPool.{Member, append, validate_peer, Step}
use dscuss.Network.PeerPool.Validating.{IsUnique, Reached, Reached-IsUnique}
use dscuss.Entity.{EntityId}
use dscuss.Network.ConnectionProvider.Counting.{IsCounted, Reached-IsCounted}
use dscuss.Network.ConnectionProvider.Releasing.{Meanwhile, close_connection-connected}

abbrev resolved : Address
resolved = codes "10.0.0.1:8004"

abbrev fresh : Provider
fresh = record {
  out_addrs = record { key = default_bootstrap_address; is_used = false } ∷ [];
  max_in = 1;
  max_out = 1;
  in_count = 0;
  out_count = 0;
  open_connections = [];
}

abbrev dialled_once : Provider
dialled_once = establish fresh fresh.out_addrs (λ a. some resolved)

abbrev closed_again : Provider
closed_again = close_connection dialled_once [] (new_connection resolved false) []

-- The provider connects to the default address, and the connection is closed.
provider_reached : ConnectionProvider.Reached closed_again
unfolding new establish
provider_reached =
    ConnectionProvider.Reached.step dialled_once closed_again
      (ConnectionProvider.Reached.step fresh dialled_once
        (ConnectionProvider.Reached.start 1 1 (omega arith) (omega arith))
        (ConnectionProvider.Step.established fresh fresh.out_addrs (λ a. some resolved)))
      (ConnectionProvider.Step.closed dialled_once [] (new_connection resolved false) [] refl)

Reached-IsCounted_example : IsCounted closed_again
Reached-IsCounted_example = Reached-IsCounted closed_again provider_reached

known_default : load fresh.out_addrs default_bootstrap_address ≡ some false
unfolding load bytes_eq
known_default = refl

abbrev dialled_default : Provider
dialled_default = (connected fresh default_bootstrap_address resolved).1

-- Another address is found before the connection is closed.
found_another :
    Meanwhile default_bootstrap_address dialled_default
      (address_found dialled_default (codes "10.0.0.9:1"))
found_another =
    Meanwhile.later dialled_default _ Meanwhile.here
      (ConnectionProvider.Step.found dialled_default (codes "10.0.0.9:1")) tt

close_connection-connected_example :
    (load (address_found dialled_default (codes "10.0.0.9:1")).out_addrs default_bootstrap_address
      ≡ some true)
    × ((before after : List Connection) (c : Connection)
        → c.addresses ≡ resolved ∷ []
        → load
            (close_connection
              (address_found dialled_default (codes "10.0.0.9:1"))
              before
              c
              after).out_addrs
            default_bootstrap_address
          ≡ some (if bytes_eq resolved default_bootstrap_address then false else true))
close_connection-connected_example =
    close_connection-connected fresh default_bootstrap_address resolved false known_default
      (address_found dialled_default (codes "10.0.0.9:1")) found_another

abbrev member : ℕ → Bool → Option EntityId → Member
member p ok id = record { ptr = p; id = id; addresses = []; is_gone = false; is_accepted = ok }

-- The first peer is accepted as user 3, and the second one, with the same user, is refused.
pool_reached : Reached (member 1 true (some 3) ∷ member 2 false (some 3) ∷ [])
unfolding append validate_peer
pool_reached =
    let first = member 1 false none ∷ [] in
    let named = member 1 false (some 3) ∷ [] in
    let taken = member 1 true (some 3) ∷ [] in
    let two = member 1 true (some 3) ∷ member 2 false none ∷ [] in
    let both = member 1 true (some 3) ∷ member 2 false (some 3) ∷ [] in
    Reached.step both both
      (Reached.step two both
        (Reached.step taken two
          (Reached.step named taken
            (Reached.step first named (Reached.step [] first Reached.start (Step.appended [] 1 []))
              (Step.identified first 1 3 refl))
            (Step.accepted named 1 3 [] named refl refl))
          (Step.appended taken 2 []))
        (Step.identified two 2 3 refl))
      (Step.refused both 2 3 [] both refl)

Reached-IsUnique_example : IsUnique (member 1 true (some 3) ∷ member 2 false (some 3) ∷ [])
Reached-IsUnique_example =
    Reached-IsUnique (member 1 true (some 3) ∷ member 2 false (some 3) ∷ []) pool_reached

-- Two writes, of which the second one is larger than what is left.
abbrev two_writes : List Call
two_writes =
    record { size = 6000; moved = 6000; error = none }
    ∷ record { size = 5000; moved = 5000; error = none }
    ∷ []

writes_fit : AllFit two_writes
writes_fit =
    AllFit.call _ _ (record { within = omega arith })
      (AllFit.call _ [] (record { within = omega arith }) AllFit.no_call)

transfer_bounded_example :
    ((transfer max_packet_size two_writes).0 + (transfer max_packet_size two_writes).1
      ≡ max_packet_size)
    × ((transfer max_packet_size two_writes).0 ≤ max_packet_size)
transfer_bounded_example = transfer_bounded max_packet_size two_writes writes_fit
