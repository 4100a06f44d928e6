-- ===== src/Network/Addresses.antt =====
-- address/address.go, p2p/address_list.go, p2p/dht_crawler.go: where the addresses of peers come from.
-- The consumer of the addresses is the provider of connections.
pub mod Knowing
pub mod Listing
pub mod Local
pub mod Crawling
pub mod Draining
use dscuss.Prelude.{
  ℕ, Bytes, bytes_eq, codes, Bool, true, false, not, ◌||◌, any, ◌==◌, ltb, ◌+◌, ◌/◌, ◌%◌, List, [],
  ◌∷◌, ◌++◌, map, Option, none, some, Error, Result, ok, err, fatal, ◌>>=◌, parsing, filesystem,
  if◌then◌else◌, ℤ, int_eq,
}
use dscuss.Subs.Topic.{Topic, to_string}
use dscuss.Subs.Subscriptions.{Subscriptions}
use dscuss.Network.ConnectionProvider.{Address, Provider, address_found}

-- regexp (the text is the second argument), strconv.Atoi, net.IP.String, crypto/sha1, and of the
-- package dht the functions DecodePeerAddress and DecodeInfoHash. Here none is an error.
pub record Libraries : Type 0 where
  pub match_string : Bytes → Bytes → Bool
  pub atoi : Bytes → Option ℤ
  pub ip_string : Bytes → Bytes
  pub sha1 : Bytes → Bytes
  pub decode_peer_address : Bytes → Address
  pub decode_info_hash : Bytes → Option Bytes

abbrev pub domain_port_regex : Bytes
domain_port_regex =
    codes
      "^(([a-zA-Z0-9]|[a-zA-Z0-9][a-zA-Z0-9\\-]*[a-zA-Z0-9])\\.)*([A-Za-z0-9]|[A-Za-z0-9][A-Za-z0-9\\-]*[A-Za-z0-9]):\\d+$"

abbrev pub ip_port_regex : Bytes
ip_port_regex =
    codes
      "^(([0-9]|[1-9][0-9]|1[0-9]{2}|2[0-4][0-9]|25[0-5])\\.){3}([0-9]|[1-9][0-9]|1[0-9]{2}|2[0-4][0-9]|25[0-5]):\\d+$"

-- `IsValid` of address.go.
unfoldable pub is_valid : Libraries → Address → Bool
is_valid lib a = lib.match_string domain_port_regex a || lib.match_string ip_port_regex a

abbrev pub colon : ℕ
colon = 58

-- The text before and the text after the last `c`.
unfoldable pub split_last : ℕ → Bytes → Option (Bytes × Bytes)
split_last c [] = none
split_last c (b ∷ bs) = elim (split_last c bs) [
  | some s ↦ some (b ∷ s.0, s.1)
  | none ↦ if b == c then some ([], bs) else none
]

-- `Parse`. The slice `a[:-1]` of a text without a colon is a panic; an error of Atoi is none.
abbrev pub parse_port : Bytes → Option ℤ → Option (Bytes × ℤ)
parse_port host none = none
parse_port host (some port) = some (host, port)

abbrev pub parse_parts : Libraries → Option (Bytes × Bytes) → Result (Option (Bytes × ℤ))
parse_parts lib none = fatal
parse_parts lib (some (host, port_str)) = ok (parse_port host (lib.atoi port_str))

unfoldable pub parse : Libraries → Address → Result (Option (Bytes × ℤ))
unfolding split_last
parse lib a = parse_parts lib (split_last colon a)

-- `ErrorFindingAddresses` of the provider is log.Fatalf.
unfoldable pub error_finding_addresses : Provider → Error → Result Provider
error_finding_addresses cp e = fatal

-- The lines of the file of addresses, and whether the scanner ends with an error.
pub record Scanned : Type 0 where
  pub lines : List Bytes
  pub has_failed : Bool

unfoldable pub read_lines : Libraries → List Bytes → Provider → Result Provider
unfolding is_valid error_finding_addresses address_found
read_lines lib [] cp = ok cp
read_lines lib (line ∷ lines) cp =
    if not (is_valid lib line)
    then error_finding_addresses cp parsing >>= read_lines lib lines
    else read_lines lib lines (address_found cp line)

-- `readAddresses`, where none is a file that cannot be opened.
unfoldable pub read_addresses : Libraries → Option Scanned → Provider → Result Provider
unfolding read_lines error_finding_addresses
read_addresses lib none cp = ok cp
read_addresses lib (some f) cp =
    read_lines lib f.lines cp
    >>= (λ cp'. if f.has_failed then error_finding_addresses cp' filesystem else ok cp')

-- `DHTCrawler`. `processed` are the keys of the map.
pub record Crawler : Type 0 where
  pub adv_port : ℤ
  pub subs : Subscriptions
  pub processed : List Address
  pub ac : Provider

-- An address of a network interface: of *net.IPNet, of *net.IPAddr, or of another type.
pub data InterfaceAddress : Type 0 where
  ip_net ip_addr : Bytes → InterfaceAddress
  other_addr : InterfaceAddress

-- What `net.Interfaces` says, and `Addrs` of each interface; none is an error.
abbrev pub Interfaces : Type 0
Interfaces = Option (List (Option (List InterfaceAddress)))

-- The variable `ip` in the loop of `localIPs`, nil for another type.
abbrev pub ip_of : InterfaceAddress → Bytes
ip_of (ip_net ip) = ip
ip_of (ip_addr ip) = ip
ip_of other_addr = []

-- The loops of `localIPs`; an interface whose addresses cannot be read is passed over.
unfoldable pub interface_ips : Libraries → List (Option (List InterfaceAddress)) → List Bytes
interface_ips lib [] = []
interface_ips lib (none ∷ is) = interface_ips lib is
interface_ips lib (some addrs ∷ is) =
    map (λ a. lib.ip_string (ip_of a)) addrs ++ interface_ips lib is

unfoldable pub local_ips : Libraries → Interfaces → List Bytes
unfolding interface_ips
local_ips lib none = []
local_ips lib (some is) = interface_ips lib is

-- The rest of `isAddressLocal` after the parsing.
abbrev pub is_port_local : Libraries → Interfaces → ℤ → Option (Bytes × ℤ) → Bool
unfolding local_ips
is_port_local lib is local_port none = false
is_port_local lib is local_port (some (ip, port)) =
    if not (int_eq local_port port) then false else any (λ lip. bytes_eq lip ip) (local_ips lib is)

unfoldable pub is_address_local : Libraries → Interfaces → Address → ℤ → Result Bool
unfolding parse
is_address_local lib is a local_port = parse lib a >>= (λ p. ok (is_port_local lib is local_port p))

unfoldable pub handle_new_address : Libraries → Interfaces → Crawler → Address → Result Crawler
unfolding is_valid is_address_local address_found
handle_new_address lib is dc a =
    if not (is_valid lib a)
    then ok dc
    else if any (λ k. bytes_eq k a) dc.processed
    then ok dc
    else is_address_local lib is a dc.adv_port >>= (λ is_local. ok (record dc {
      ac = if is_local then dc.ac else address_found dc.ac a;
      processed = a ∷ dc.processed;
    }))

-- A peer of a result, as the DHT encodes it, with the interfaces at that time.
abbrev pub Sighting : Type 0
Sighting = Interfaces × Bytes

unfoldable pub handle_peers : Libraries → Crawler → List Sighting → Result Crawler
unfolding handle_new_address
handle_peers lib dc [] = ok dc
handle_peers lib dc (x ∷ xs) = do
  dc' ← handle_new_address lib x.0 dc (lib.decode_peer_address x.1)
  handle_peers lib dc' xs

-- The loop of `drainAddresses` over a result, a map from info hashes to peers.
unfoldable pub handle_result : Libraries → Crawler → List (Bytes × List Sighting) → Result Crawler
unfolding handle_peers
handle_result lib dc [] = ok dc
handle_result lib dc (r ∷ rs) = do dc' ← handle_peers lib dc r.1; handle_result lib dc' rs

-- What the select of `drainAddresses` gets.
pub data DrainTurn : Type 0 where
  stopped : DrainTurn
  results : List (Bytes × List Sighting) → DrainTurn

-- `drainAddresses`: whether the loop has ended, and the crawler.
unfoldable pub drain_addresses : Libraries → Crawler → List DrainTurn → Result (Bool × Crawler)
unfolding handle_result
drain_addresses lib dc [] = ok (false, dc)
drain_addresses lib dc (stopped ∷ ts) = ok (true, dc)
drain_addresses lib dc (results r ∷ ts) = do
  dc' ← handle_result lib dc r
  drain_addresses lib dc' ts

-- fmt.Sprintf("%x") of bytes.
abbrev pub hex_digit : ℕ → ℕ
hex_digit n = if ltb n 10 then 48 + n else 87 + n

unfoldable pub hex : Bytes → Bytes
hex [] = []
hex (b ∷ bs) = hex_digit (b / 16) ∷ hex_digit (b % 16) ∷ hex bs

unfoldable pub calc_info_hash : Libraries → Bytes → Result Bytes
unfolding hex
calc_info_hash lib s = elim (lib.decode_info_hash (hex (lib.sha1 s))) [
  | none ↦ fatal
  | some ih ↦ ok ih
]

-- The calls of PeersRequestPort in one turn of the loop of `requestAddresses`: the hash and the port of each.
unfoldable pub request_turn : Libraries → ℤ → Subscriptions → Result (List (Bytes × ℤ))
unfolding calc_info_hash to_string
request_turn lib port [] = ok []
request_turn lib port (t ∷ ts) = do
  ih ← calc_info_hash lib (to_string t)
  rest ← request_turn lib port ts
  ok ((ih, port) ∷ rest)
