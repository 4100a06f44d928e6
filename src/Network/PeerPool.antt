-- ===== src/Network/PeerPool.antt =====
-- p2p/peer_pool.go. A peer is named by a number, as its pointer; `ID` is none before the handshake has
-- set the user.
pub mod Removing
pub mod Members
pub mod Validating
use dscuss.Prelude.{
  all, ◌||◌, ◌≡◌, fill_gap, ℕ, Bool, true, false, not, ◌&&◌, List, [], ◌∷◌, ◌++◌, map, length, find,
  any, Option, none, some, ◌==◌, if◌then◌else◌,
}
use dscuss.Entity.{EntityId}
use dscuss.Network.ConnectionProvider.{Address}

-- A peer of the pool, as far as the pool sees it, and whether the pool was asked about it and
-- accepted it.
pub record Member : Type 0 where
  pub ptr : ℕ
  pub id : Option EntityId
  pub addresses : List Address
  pub is_gone : Bool
  pub is_accepted : Bool

-- `peerList.Append`
unfoldable pub append : List Member → Member → List Member
append peers p = peers ++ p ∷ []

abbrev pub with_member : Member → Bool × List Member → Bool × List Member
with_member m (found, ms) = (found, m ∷ ms)

-- `peerList.Remove`: the last peer is swapped into the gap.
unfoldable pub remove : List Member → ℕ → Bool × List Member
remove [] p = (false, [])
remove (m ∷ ms) p =
    let rest = remove ms p in if m.ptr == p then (true, fill_gap ms) else with_member m rest

abbrev pub remove_if : Bool → List Member → ℕ → List Member
unfolding remove
remove_if true peers p = (remove peers p).1
remove_if false peers p = peers

-- One tick of `watchGonePeers`: the loop over the copy `seen` of the list.
unfoldable pub remove_gone : List Member → List Member → List Member
unfolding remove_if
remove_gone [] peers = peers
remove_gone (m ∷ seen) peers = remove_gone seen (remove_if m.is_gone peers m.ptr)

abbrev pub has_id : EntityId → Option EntityId → Bool
has_id id none = false
has_id id (some i) = i == id

-- The test of `ValidatePeer` on another peer of the pool.
abbrev pub is_double : ℕ → EntityId → Member → Bool
is_double new id m = has_id id m.id && not (m.ptr == new)

-- The addresses of the new peer go to the other one.
abbrev pub hand_over : ℕ → ℕ → List Address → Member → Member
hand_over new other addrs m =
    if m.ptr == other
    then record m { addresses = m.addresses ++ addrs }
    else if m.ptr == new
    then record m { addresses = [] }
    else m

abbrev pub validated : List Member → ℕ → List Address → Option Member → Bool × List Member
validated peers new addrs none = (true, peers)
validated peers new addrs (some m) = (false, map (hand_over new m.ptr addrs) peers)

-- `ValidatePeer` of the new peer, with its ID and its addresses.
unfoldable pub validate_peer : List Member → ℕ → EntityId → List Address → Bool × List Member
validate_peer peers new id addrs = validated peers new addrs (find (is_double new id) peers)

-- What `finalize` of the handshake does first: it sets the user of the peer.
abbrev pub set_id : ℕ → EntityId → Member → Member
set_id p id m = if m.ptr == p then record m { id = some id } else m

abbrev pub accept : ℕ → Member → Member
accept p m = if m.ptr == p then record m { is_accepted = true } else m

-- A turn of one of the goroutines on the pool: a connection becomes a peer, a handshake sets the user
-- of a peer and then asks for its validation, or a tick removes the peers that are gone. A peer is
-- appended before its handshake is over.
pub data Step : List Member → List Member → Type 0 where
  appended :
      (peers : List Member) (p : ℕ) (addrs : List Address)
      → Step peers (
          append peers (record {
            ptr = p;
            id = none;
            addresses = addrs;
            is_gone = false;
            is_accepted = false;
          }))
  identified :
      (peers : List Member) (p : ℕ) (id : EntityId)
      → any (λ m. m.ptr == p && m.is_accepted) peers ≡ false
      → Step peers (map (set_id p id) peers)
  refused :
      (peers : List Member) (p : ℕ) (id : EntityId) (addrs : List Address) (peers' : List Member)
      → validate_peer peers p id addrs ≡ (false, peers')
      → Step peers peers'
  accepted :
      (peers : List Member) (p : ℕ) (id : EntityId) (addrs : List Address) (peers' : List Member)
      → all (λ m. not (m.ptr == p) || has_id id m.id) peers ≡ true
      → validate_peer peers p id addrs ≡ (true, peers')
      → Step peers (map (accept p) peers')
  ticked : (peers seen : List Member) → Step peers (remove_gone seen peers)
