-- ===== src/Network/ConnectionProvider.antt =====
-- p2p/connection_provider.go, with the addresses of a connection of p2p/connection/connection.go. An
-- address is the bytes of its string.
pub mod Counts
pub mod Counting
pub mod Releasing
use dscuss.Prelude.{
  ℕ, ◌+◌, ◌-◌, ◌%◌, ◌^◌, ◌<◌, ◌≡◌, Bytes, codes, Bool, true, false, List, [], ◌∷◌, ◌++◌, Option,
  none, some, ltb, leb, ◌==◌, bytes_eq, if◌then◌else◌,
}

abbrev pub Address : Type 0
Address = Bytes

-- A key of the map `addressMap.m`, and whether the address is used.
pub record Entry : Type 0 where
  pub key : Address
  pub is_used : Bool

abbrev pub AddressMap : Type 0
AddressMap = List Entry

unfoldable pub load : AddressMap → Address → Option Bool
load [] key = none
load (e ∷ es) key = let rest = load es key in if bytes_eq e.key key then some e.is_used else rest

abbrev pub add_unless : Option Bool → AddressMap → Entry → AddressMap
add_unless (some b) m e = m
add_unless none m e = m ++ e ∷ []

unfoldable pub add : AddressMap → Address → Bool → AddressMap
unfolding load
add m key value = add_unless (load m key) m (record { key = key; is_used = value })

-- The change of an unknown address is only logged.
unfoldable pub change : AddressMap → Address → Bool → AddressMap
change [] key value = []
change (e ∷ es) key value =
    let rest = change es key value in
    if bytes_eq e.key key then record e { is_used = value } ∷ es else e ∷ rest

-- `Connection`, as far as the provider sees it.
pub record Connection : Type 0 where
  pub addresses : List Address
  pub is_incoming : Bool

-- `connection.New`, with what `RemoteAddr` says of the socket.
abbrev pub new_connection : Address → Bool → Connection
new_connection remote is_incoming = record { addresses = remote ∷ []; is_incoming = is_incoming }

unfoldable pub add_addresses : Connection → List Address → Connection
add_addresses c new = record c { addresses = c.addresses ++ new }

unfoldable pub clear_addresses : Connection → Connection
clear_addresses c = record c { addresses = [] }

-- atomic.AddUint32 of 1, and of ^uint32(0).
abbrev pub increment : ℕ → ℕ
increment n = (n + 1) % 2 ^ 32

abbrev pub decrement : ℕ → ℕ
decrement n = (n + (2 ^ 32 - 1)) % 2 ^ 32

-- `ConnectionProvider`, and the connections that it opened and that are not closed yet.
pub record Provider : Type 0 where
  pub out_addrs : AddressMap
  pub max_in : ℕ
  pub max_out : ℕ
  pub in_count : ℕ
  pub out_count : ℕ
  pub open_connections : List Connection

abbrev pub default_bootstrap_address : Address
default_bootstrap_address = codes "dscuss.org:8004"

unfoldable pub new : ℕ → ℕ → Provider
unfolding add
new max_in max_out = record {
  out_addrs = add [] default_bootstrap_address false;
  max_in = max_in;
  max_out = max_out;
  in_count = 0;
  out_count = 0;
  open_connections = [];
}

unfoldable pub address_found : Provider → Address → Provider
unfolding add
address_found cp a = record cp { out_addrs = add cp.out_addrs a false }

-- One turn of `listenIncomingConnections`, with the remote address of the connection that `Accept`
-- returns, or none for an error.
abbrev pub accepted : Provider → Option Address → Provider
accepted cp none = cp
accepted cp (some remote) = record cp {
  in_count = increment cp.in_count;
  open_connections = cp.open_connections ++ new_connection remote true ∷ [];
}

unfoldable pub listen : Provider → Option Address → Provider
listen cp conn = if leb cp.max_in cp.in_count then cp else accepted cp conn

-- The rest of `tryToConnect` after the dialling, with the remote address of the socket; the Boolean
-- says whether the loop over the addresses goes on.
unfoldable pub connected : Provider → Address → Address → Bool × Provider
unfolding change
connected cp addr remote =
    let cp' =
      let c : Provider = record cp {
        out_count = increment cp.out_count;
        out_addrs = change cp.out_addrs addr true;
        open_connections = cp.open_connections ++ new_connection remote false ∷ [];
      } in
      c in
    if cp'.out_count == cp.max_out then (false, cp') else (true, cp')

abbrev pub dialled : Provider → Address → Option Address → Bool × Provider
unfolding connected
dialled cp addr none = (true, cp)
dialled cp addr (some remote) = connected cp addr remote

unfoldable pub try_to_connect : Provider → Address → Bool → Option Address → Bool × Provider
unfolding dialled
try_to_connect cp addr is_used dial = if is_used then (true, cp) else dialled cp addr dial

-- The loop over a copy of the map, with what dialling each address comes to.
unfoldable pub dial_all : (Address → Option Address) → List Entry → Provider → Provider
unfolding try_to_connect
dial_all dial [] cp = cp
dial_all dial (e ∷ es) cp =
    let (go_on, cp') = try_to_connect cp e.key e.is_used (dial e.key) in
    let rest = dial_all dial es cp' in if go_on then rest else cp'

-- One turn of `establishOutgoingConnections`; `order` is the map in the order in which `range` goes
-- through it.
unfoldable pub establish : Provider → List Entry → (Address → Option Address) → Provider
unfolding dial_all
establish cp order dial = if leb cp.max_out cp.out_count then cp else dial_all dial order cp

unfoldable pub release : AddressMap → List Address → AddressMap
unfolding load change
release m [] = m
release m (a ∷ rest) = elim (load m a) [
  | none ↦ release m rest
  | some b ↦ release (change m a false) rest
]

-- The close handler, on one of the connections that are open.
unfoldable pub close_connection :
    Provider → List Connection → Connection → List Connection → Provider
unfolding release
close_connection cp before c after = record cp {
  in_count = if c.is_incoming then decrement cp.in_count else cp.in_count;
  out_count = if c.is_incoming then cp.out_count else decrement cp.out_count;
  out_addrs = release cp.out_addrs c.addresses;
  open_connections = before ++ after;
}

-- A turn of one of the loops, the close handler, or a call that changes the addresses of an open
-- connection.
pub data Step : Provider → Provider → Type 0 where
  found : (cp : Provider) (a : Address) → Step cp (address_found cp a)
  listened : (cp : Provider) (conn : Option Address) → Step cp (listen cp conn)
  established :
      (cp : Provider) (order : List Entry) (dial : Address → Option Address)
      → Step cp (establish cp order dial)
  closed :
      (cp : Provider) (before : List Connection) (c : Connection) (after : List Connection)
      → cp.open_connections ≡ before ++ c ∷ after
      → Step cp (close_connection cp before c after)
  addressed :
      (cp : Provider) (before : List Connection) (c : Connection) (after : List Connection)
      (new : List Address)
      → cp.open_connections ≡ before ++ c ∷ after
      → Step cp (record cp { open_connections = before ++ add_addresses c new ∷ after })
  cleared :
      (cp : Provider) (before : List Connection) (c : Connection) (after : List Connection)
      → cp.open_connections ≡ before ++ c ∷ after
      → Step cp (record cp { open_connections = before ++ clear_addresses c ∷ after })

-- The limits are of the type uint32.
pub data Reached : Provider → Type 0 where
  start : (max_in max_out : ℕ) → max_in < 2 ^ 32 → max_out < 2 ^ 32 → Reached (new max_in max_out)
  step : (cp cp' : Provider) → Reached cp → Step cp cp' → Reached cp'
