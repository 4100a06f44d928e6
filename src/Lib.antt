-- ===== src/Lib.antt =====
-- Dscuss, a decentralised forum: a node keeps users, messages and moderators' operations in a
-- database and exchanges them with its peers. This library models the data and the storage of a
-- node, its owner's account, profile and view, the protocol that a node follows with a peer, and
-- the web client through which the owner reads, posts and moderates.
--
-- The parts, with the files of the repository that they follow:
--
--   Subs/Topic, Subs/Subscriptions, Subs/Combinations
--                                    subs/topic.go, subs/subscriptions.go
--   Entity, Entity/Messages, Entity/Operations, Entity/Users
--                                    entity/entity.go, message.go, operation.go, user.go
--   Packet, Packet/Checks            packet/packet.go and the payloads beside it
--   Entity/Ids                       entity/entity.go (ParseString)
--   Crypto, Crypto/Keys              crypto/public_key.go, signer.go, pow.go; private_key.go
--   Crypto/Proving                   crypto/pow.go (worker, Find)
--   Sqlite, Sqlite/MessageTable, Sqlite/MessageQueries, Sqlite/OperationTable
--                                    sqlite/entity_database.go
--   Sqlite/ProfileDatabase           sqlite/profile_database.go
--   Sqlite/Threads                   sqlite/entity_database.go (GetThread)
--   Thread                           thread/node.go, moderating_visitor.go, viewing_visitor.go
--   Storage                          storage/storage.go
--   Owner/Profile, Owner/View        owner/profile.go, owner/view.go
--   Owner/Account                    owner/owner.go
--   Peer/Receiving, with Verdicts (the checks) and Performing (the state)
--                                    p2p/peer/state_receiving.go, errors.go
--   Peer/Interest                    p2p/peer/peer.go (what a peer is interested in)
--   Peer/Handshaking, Peer/Sending   p2p/peer/state_handshaking.go, state_sending.go
--   Peer/Syncing                     p2p/peer/state_active_syncing.go, state_passive_syncing.go,
--                                    state_idle.go, state.go
--   Peer/Machine                     p2p/peer/peer.go (New, run, Close)
--   Network/ConnectionProvider       p2p/connection_provider.go, and the addresses of
--                                    p2p/connection/connection.go
--   Network/Addresses                address/address.go, p2p/address_list.go, p2p/dht_crawler.go
--   Network/PeerPool                 p2p/peer_pool.go
--   Network/Transfer                 p2p/connection/io.go
--   Node, Node/Login                 dscuss.go; there Login, Logout and Relogin, with Stop of
--                                    p2p/peer_pool.go
--   Web/Http, Web/Acting             cmd/dscuss-web/controller/controller.go, common_data.go
--   Web/Sessions                     session.go, session_pool.go and sessions.go beside them
--   Web/Browsing, Web/Entering, Web/Posting, Web/Moderating, Web/Settings
--                                    the handle_*.go files beside them
--   Web/Serving                      controller.go (makeHandler) and init_handlers.go
--   Prelude                          errors/errors.go (Error), and helpers of the library itself
--
-- A function keeps the name of the Go function in lower case with underscores: `PutMessage` is
-- `put_message`. Where two types have a method of the same name, the type is in the name:
-- `UnsignedMessage.isValid` is `is_unsigned_message_valid`. The files beside a component that
-- hold no definition of the program hold its theorems; Witnesses holds the theorems at concrete
-- values.
--
-- How state is passed: a function that changes the database or the storage takes it and returns
-- the new one beside its result. A reading of the clock is an argument. The variables
-- lastMsgTimestamp and lastOperTimestamp are passed in and handed back. A result is `ok`, `err`
-- with an error of errors/errors.go, or `fatal`: a panic or a call of log.Fatal, which ends the
-- process. Handles of logged in users are pointers that sessions share, so `Process` of
-- Node/Login keeps what each one points to, and beside it the directories of the registered
-- users. A handler of the web client is a term of the monad `Act`: it reads and changes the
-- process and the session, and may return or panic before its end. A request is served in one
-- step, and the time comes with it. The search for a proof of work is a step relation over the
-- workers of `Find`; `register` takes its result as an input, as it takes the time.
--
-- How the parts meet: Node serves the user from the storage, the view and the profile.
-- Peer/Machine goes from one state of a peer to the next; each state is a function in a module of
-- its own, and a step of another part of the program may change the storage and the profile
-- between two states. Peer/Receiving asks the peer for an entity and reads the packet that
-- carries it; Packet/Checks verifies the signature and header of the packet, the checks of Entity
-- decide on the entity itself, and the view tells whether its author is banned. Storage puts it
-- into the tables of Sqlite and then offers it to the channels of the other peers. What is read
-- from the tables is checked again by the constructors of Entity, and a topic by the parser of
-- Subs. Owner/Account opens the profile, the view and the storage of one user from a directory,
-- Node/Login makes a handle of them, and at the logout closes the peers of the pool, which save
-- their histories, and Web/Serving finds the session of a request, checks its rights and its
-- token, and runs the handler, which calls Node on the handle of the session.
--
-- Parameters: `Env` holds the functions of Go's libraries and of SQLite's GROUP_CONCAT,
-- `KeyCodec` those of crypto/x509 and encoding/pem, and `Library` those of net/url,
-- encoding/base64 and the formats of time; a `Request` is what net/http hands over. `Libraries`
-- of Network/Addresses holds those of regexp, strconv, net, crypto/sha1 and the package dht.
-- Named hypotheses: `IsLawful` for ECDSA, `JoinsAll` for GROUP_CONCAT (all the names, in an
-- arbitrary order), `ScansLines` for bufio.Scanner, and `Decodes` for PEM and DER; `HasPort` says
-- that what the patterns of an address match has a colon.
--
-- Bounds: numbers are unbounded, but for the counts of connections, which are of the type uint32
-- and wrap round; a byte is a number and a string is a list of bytes. A time is a number of
-- nanoseconds; where SQLite compares the columns of times as texts, with the offsets of their
-- zones, the texts are functions of `Env`. An identifier is the number that its 32 bytes write.
-- `get_root`, `get_message_depth` and `get_thread` run on fuel, since a chain of parents that
-- comes from a peer is not known to end: a message at depth d takes d + 1 turns.
-- `add_combinations` runs on fuel as well, and one more than the number of the topic's tags is
-- enough. The loop of `perform` runs on fuel too, for at most 2052 turns, as many as entities may
-- be pending. What a turn of a loop of the protocol gets from outside is a record, as `Turn`: the
-- packet that is read, and the readings of the clock. The loops of the other states run over the
-- list of their turns, and the left result stands for a loop that has not ended then.
--
-- Not modelled: reading and writing on a socket; the encoding JSON; log output; the start of the
-- node of the DHT; the command line client. Of the web client: the templates, the static files,
-- the titles of pages and the texts of error replies, and the requests that are served at the
-- same time. No SQL statement fails but by a constraint that its table declares.
mod Prelude
pub mod Subs
pub mod Entity
pub mod Packet
pub mod Thread
pub mod Env
pub mod Crypto
pub mod Sqlite
pub mod Storage
pub mod Owner
pub mod Peer
pub mod Network
pub mod Node
pub mod Web
mod Witnesses
