-- ===== src/Lib.antt =====
-- A verification library for xmpp-go, an XMPP library in Go. Its parts are used side by side: a session
-- routes stanzas through a multiplexer to handlers, addresses them with JIDs, counts them for stream
-- management, keeps its data in a storage backend, and OMEMO encrypts messages end to end. Plugins
-- are started in the order of their dependencies. The server program puts sessions, the router of
-- their stanzas, registration and the storage backend together.
--
-- Files and the code that they model:
--   Storage/Model            storage/*.go: the entities, queries and errors
--   Storage/Memory/*         storage/memory/memory.go: one module for each group of methods, named
--                            after it; `State` is the struct, `Commands` all writing calls as one type
--   Storage/File/*           storage/file/file.go: `Disk` holds the folders and helpers, the others are
--                            named after a group of methods
--   Jid, Jid/Utf8, Jid/Escape  jid/jid.go: parsing, printing, comparison, XEP-0106 escaping
--   Omemo/Primitives         crypto/omemo/{kdf,aes_gcm,errors}.go over the called cryptography
--   Omemo/Ratchet            crypto/omemo/ratchet.go: the Double Ratchet
--   Omemo/Wire               crypto/omemo/ratchet_header.go and the encodings in ratchet.go
--   Omemo/Session            crypto/omemo/session.go, less its constructors
--   Omemo/MemoryStore        crypto/omemo/{memory_store,store,address}.go: the key store
--   Sm                       plugins/sm/sm.go: stream management
--   Mux                      mux.go and Chain of middleware.go: stanza routing
--   Manager                  plugin/manager.go: the plugin manager
--   Stanza                   stanza/{stanza,iq,error}.go: headers, IQs and their answers
--   Daemon/Router            cmd/xmppd/stream.go: the sessions by full and by bare JID
--   Daemon/Limiter           cmd/xmppd/registration.go: the rate limiter
--   Daemon/Forms             cmd/xmppd/registration.go: its configuration and its data form
--   Daemon/Registration      cmd/xmppd/registration.go: the handler of registration requests
--   Daemon/Text              the functions of package strings that the server calls
--   Daemon/World             cmd/xmppd/stream.go, session.go: sessions and the routing between them
--   Daemon/Stream            cmd/xmppd/stream.go: the handler of each element; its `Reach` is the
--                            server as a step relation
-- The other modules below these hold proofs and are named for what they prove. `Prelude` holds Boolean
-- tests, lists and maps, `Tests` concrete inputs. A Go function keeps its name in lower case with
-- underscores.
--
-- Conventions. A Go string or byte slice is its list of bytes. A map is an association list: where Go
-- iterates over a map in any order, the model uses the order of the list. An operation under a lock is
-- one step from a state to a state. A `uint32` is a natural number with its wrap-around written out,
-- and so is the `int64` counter of the archive, taken by its bits. A time is a number of nanoseconds
-- from Go's zero time, and the clock, fresh keys and nonces are arguments. `sort.Slice` is an
-- insertion sort, one of the orders that it may produce.
--
-- Cryptography is a record of functions (HMAC, HKDF, X25519, AES-GCM); theorems that need it assume
-- the documented sizes, that the two sides of an exchange agree, and that decryption undoes
-- encryption. None assumes or states secrecy.
--
-- Bounds and fuel. The decimal text of a counter has at most 20 digits, the bound of `decimal`. The
-- loop over skipped keys runs a number of rounds that is known at its start. `fetch`, which models a
-- client that pages through an archive, is given one page more than messages are selected. The sort
-- of the plugins is given as many rounds as there are plugins, and each round places one.
--
-- The file backend. A folder maps the names of files to their contents and JSON is a pair of functions.
-- Theorems that need it assume what package encoding/json documents, in `Storage/File/Documented`: it
-- reads back values whose strings are valid UTF-8 and whose times are before the year 9999, and maps
-- with the same entries in any order. Disk errors are left out.
--
-- The server. A round of a session's loop, from reading an element to the next, is one step; rounds of
-- different sessions interleave in any order, interleavings inside a round are left out. `SessionState`
-- is a record of its bits. Decoding XML and base64, randomness, the clock and the TLS handshake are
-- parameters, and a connection may be lost at any time.
--
-- Not modelled: the database backends, client sessions and transports, the XML layer, package
-- sasl, OMEMO's X3DH and manager, the plugins and the server's configuration. Most of them are I/O or
-- payload types.
pub mod Prelude
pub mod Storage
pub mod Jid
pub mod Omemo
pub mod Sm
pub mod Mux
pub mod Manager
pub mod Stanza
pub mod Daemon
pub mod Tests
