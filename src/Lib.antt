-- ===== src/Lib.antt =====
-- A verification library for interactsh-lite: the out-of-band interaction server of
-- interactsh-srv/oobsrv/ and the client module of oobclient/.
--
-- A client registers a correlation ID with a secret; the server stores a session for it. Protocol
-- handlers scan what they receive for registered IDs and append an encrypted interaction to the
-- session of each; a poll hands the interactions out. Interactions that belong to no session go
-- to shared buckets that every client reads.
--
-- Prelude: shared names. Strings and byte slices are lists of bytes, Go maps are association
--   lists, `Prelude.Text` has what is used of package strings. Results that need the Unicode
--   tables (bytes of 0x80 and more) come from the record `Unicode`.
-- Crypto: interactsh-srv/oobsrv/encrypt.go. The key stream of AES-CTR is the record `Ctr`.
-- Oobclient.Response: `ResponseConfig` of oobclient/options.go. The other children of Oobclient:
--   oobclient/client.go. `Cid` is the generator of correlation IDs, where an index out of range is a
--   result, with `Digits` the characters and `Generated` the IDs. `Decrypt` and `Poll` are a poll,
--   `Registration` is `tryRegisterServers` with what it calls over a record `Network`, `Options` is
--   `New`, `Lifecycle` the calls of a client and its goroutines as a step relation, where a poll loop
--   is a number and a registration or deregistration an entry of a list; a cancelled poll loop runs
--   until it comes to its `select`. `Session` is the session file, `Domain` the payload domains, in
--   which Correlation finds the ID. `Delivery` joins it to Endpoints: what both sides rely on for
--   every text is the record `Agrees`, and what they rely on for the texts of one poll, in RSA and
--   JSON, are hypotheses about these.
-- Storage and its children: `memoryStorage` of interactsh-srv/oobsrv/storage.go. `Tables` has the
--   session map with the LRU list and its map (`sessions`, `lruList`, `lruMap`), `Evict` is
--   `evictLRU`, `Register` is `registerInternal`, `Access` has the other methods. Sessions live in a
--   heap and are named by pointers. A method is a function from the storage and what its readings
--   of the clock and of random bytes return, to its result and the new storage. `getSession` and
--   `HasCorrelationID` give up the lock: their models take what other goroutines do meanwhile.
--   The other methods are atomic in the model: `AppendInteraction` too, which in the code finds its
--   session before it locks it. The eviction TTL is the product that `time.Duration` can hold.
--   `Disk` is `diskStorage`, the memory storage with LevelDB, a map, behind its hooks.
-- SharedBucket: the type of that name in storage.go, with time as an argument. `Refinement` is its
--   buffer against the whole history, `Waiting` a consumer between two of its reads.
-- Server: the fields of `Server` in interactsh-srv/oobsrv/server.go that the handlers use, and
--   `captureInteraction`. It calls the matchers of Correlation and stores into Storage and the
--   SharedBucket of a domain. The record `Meets` has what a capture meets from outside: the answers
--   of `HasCorrelationID`, what these calls and other goroutines leave of the storage, IVs, time.
-- Dns and its children: interactsh-srv/oobsrv/dns.go. `Acme` is the challenge store, `Zone` the
--   matching of domains, `Answer` the records of a reply, `Handle` is `handleDNS`. Parsing of
--   addresses and the texts of messages are records of functions. The loading of custom records
--   from YAML and the listeners are not modelled.
-- Endpoints: interactsh-srv/oobsrv/endpoints.go, the handlers of register, poll and deregister over
--   Storage, SharedBucket and UserAgents. JSON and base64 are libraries; so are the public keys,
--   which encrypt.go hands to them. `Others` has what other goroutines do between two calls of the
--   storage.
-- Http and its children: interactsh-srv/oobsrv/middleware.go and httpapi.go. A handler is a function
--   on the server's state and a recorder, which also stands for the writer of net/http. `Respond`
--   has the answers to a query and from a stored configuration, `Serve` is `serveDefault`,
--   `Middleware` the wrappers and `onHTTPInteraction`. A delay is a result. A request comes with its
--   query and headers parsed; the limits on its body and the listeners are not modelled.
-- Smtp: of interactsh-srv/oobsrv/smtp.go, the copy of a session's bytes that `teeConn` keeps, with
--   the cap of its buffer as an argument (8192 in the code), and the envelope parsed from it;
--   `Session` is `smtpSession` up to the envelope that `Data` hands on, `Capture` is `onSMTPData`.
--   How the body of a message is read is not modelled.
-- Ftp: of interactsh-srv/oobsrv/ftp.go, the notifier with what it captures into the extra bucket of
--   the server, and the paths of the driver.
-- Ldap: interactsh-srv/oobsrv/ldap.go, the handlers by the request that the library routes to them.
--   A handshake is a Boolean of the message. `Capture` is what a search stores, `Extra` the extra
--   bucket under LDAP requests, FTP notifications and polls, `StartTls` a connection.
-- Cli: the command line client, main.go, config.go and output.go. `Settings` is the configuration
--   with the flags over it, `Output` what is shown and how, `Run` the callback of the poll loop and
--   the exit code, from the count that is read while callbacks may still run. Patterns are compiled and matched, files read and JSON made by parameters.
-- Setup: interactsh-srv/oobsrv/config.go and `New` of server.go. `Valid` is `Validate`, `Ready` the
--   server that `New` returns, `Routes` the patterns with their handlers. The mux is the record `Mux`,
--   `Picks` has what net/http documents of it. `Files` is the configuration file, with `LoadConfig` and `ExpandResolvers` of interactsh-srv/config.go. The
--   sort of the domains is a parameter; `Sorts` has what is relied on.
-- Tls: interactsh-srv/oobsrv/tls.go. `Names` is the name for which a certificate is chosen, `Reload`
--   the custom certificate, `Evict` the certificates that expire. The loop of `loadLeaf` takes fuel:
--   a round consumes a byte at least where there is a PEM block. Times are numbers.
-- IpDetect: interactsh-srv/oobsrv/ipdetect.go, over what the host and the network answer.
-- UserAgents: the counts of interactsh-srv/oobsrv/useragent.go; `Report` is a tick of its loop.
-- Correlation: interactsh-srv/oobsrv/correlation.go. A closure with its variables is a function
--   on a state. The loop over labels takes the input's length as fuel: a round consumes a byte.
--
-- Not modelled: the FTP driver's file operations, the set-up of ACME, the start and
-- the end of listeners, metrics and the command line server.
pub mod Prelude
pub mod Oobclient
pub mod Crypto
pub mod Correlation
pub mod Storage
pub mod SharedBucket
pub mod Server
pub mod Dns
pub mod UserAgents
pub mod Endpoints
pub mod Http
pub mod Ldap
pub mod Smtp
pub mod Ftp
pub mod Cli
pub mod Setup
pub mod Tls
pub mod IpDetect
