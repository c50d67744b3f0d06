-- ===== src/Lib.antt =====
-- aoni is an HTTP client library in Go. This library models the parts of it that decide something:
-- how hosts are matched, when a backend may be used, which bytes a WebSocket connection sends and
-- what it makes of those it receives, which cookies a request carries, which Referer it shows, how
-- a load balancer chooses and falls back, when a cached response or resolution is still served, how
-- often a request is repeated, through which proxies it goes, how concurrent requests share one
-- re-authentication, what the HTTP cache answers, when a download is complete, and what is read of a
-- stream of events.
--
-- The parts and the files:
--
-- * Base and its children: the native numbers, texts as lists of bytes (Base/Text), the lists that
--   are measured by native numbers (Base/Lists), signed numbers (Base/Int), and Base/Foundation, the
--   functions of github.com/lemon4ksan/foundation that the code calls, as a record of functions and
--   documented laws. Base/Sample is a concrete instance of it for the tests.
-- * Trie (trie/domain.go): `insert` and `match` are ReverseDomainTrie.Insert and Match,
--   `match_domain_node` is matchDomainNode. Trie/Store says what an insertion stores, Trie/Matching
--   which pattern a lookup finds.
-- * Health (internal/health/health.go): `mark_failed`, `mark_success`, `reset`, `is_available`,
--   `status` and `cooldown_remaining` are the methods of Tracker; a callback is a notice in the
--   result. Health/Laws has the invariant of a history and the law of the circuit.
-- * Ws/Frame (realtime/ws/wsconn.go and compression.go): `read_raw_frame` and `write_frame` with
--   `build_frame_header`, `parse_extended_payload_length` and `read_frame_payload`. Ws/Frame/Bytes and
--   Ws/Frame/RoundTrip are about the bytes. Ws/Message: `read_frame` is readFrameScoped without a
--   scope, whose loop of maxConsecutiveEmptyReads rounds is recursion on that number, 100, as in the
--   code; `handle_control`, `handle_continuation` and `handle_data` are its three parts, and
--   `read_message` is ReadMessage. Ws/Message/Fragments and Ws/Message/Control are about them.
-- * Cookie/Rules (cookie/cookie.go): `path_match`, `domain_match`, `validate_prefix` and
--   `parse_set_cookie_header` are PathMatch, DomainMatch, ValidatePrefix and ParseSetCookieHeader.
--   Cookie/Jar (cookie/memory_jar.go and cookie/jar.go): `set_cookies` and `cookies` are the methods of
--   MemoryJar. Cookie/Jar/Origin says where the cookies of a request come from, Cookie/Jar/Lifetime
--   how long they last.
-- * Referer (pipeline/referer.go): `compute_referer` and `update_last_url` are the methods of
--   RefererAutomaton; Referer/Policy says what each policy shows.
-- * Cache (resiliency/cache/cache.go): `get`, `set_entry` and `purge_expired` are those of
--   InMemoryStore, `sharded_get`, `sharded_set` and `sharded_purge` those of ShardedStore, `lru_get`
--   and `lru_set` those of LRUStore. Cache/Histories is about sequences of them.
-- * Balancer (resiliency/loadbalancer/loadbalancer.go): Balancer/Pool has the backends, each with a
--   tracker of Health, and the operations on the pool; Balancer/Order is buildBackendIndices;
--   Balancer/Attempts has tryBackend as `try_backend` and the loop of Do as `try_each`; Balancer/Call
--   has Do as `do_request` and SelectHealthy. Balancer/Order/Occurs, Balancer/Order/InRange,
--   Balancer/Failover and Balancer/Statistics are about them.
-- * Retry (middleware/retry.go, with parseRetryAfter of middleware/resilience.go): `retry` is the
--   middleware, `resolve_retry_overrides` what a request's own policy makes of its options, `attempts` its loop, which recurses on the number of attempts left, that is as many
--   rounds as the code allows; `gate` is what stands before the call of an attempt. What an attempt
--   meets outside is a function of its number, and what it does is a list of events. Retry/Attempts
--   counts the calls, Retry/Recovery says when the loop gets through.
--
-- * Stream (realtime/stream/stream.go): Stream/Lines is the reader of lines that the code is given,
--   with its buffer of 4096 bytes. Stream/Sse has NextEvent as `next_event`, parseSSELineBytes as
--   `parse_sse_line` and consumeSSEResponse as `consume_sse_response`, which recurses on fuel: each
--   event uses up a chunk of the body, so one unit more than there are chunks is enough
--   (Stream/Sse/Ending). Stream/Sse/Resumable has the goroutine of ResumableSSE as `resumable_sse`, over
--   the list of the replies it gets, with that much fuel for each response. Stream/Sse/FieldLine,
--   Stream/Sse/RoundTrip and Stream/Sse/Whole are about a line, a message and a response,
--   Stream/Sse/Reconnects about the sequence of requests. Stream/Grpc has readNextGRPCWebFrame and All of
--   GRPCWebReader, as `read_next_grpc_web_frame` and `all_values`, and readGRPCWebFramesBytes and
--   verifyGRPCTrailer of codec/decode/grpc.go; the loops recurse on fuel, and each frame takes five
--   bytes at least, so one unit more than there are bytes is enough. Stream/Grpc/Whole is about the
--   reader, Stream/Grpc/Decoder about the decoder beside it.
-- * Redirect (fast/redirect.go and fast/cookies.go): `execute_with_redirects` is executeWithRedirects,
--   `follow` its loop, which recurses on the redirects that the limit still allows, and `redirect` what
--   it makes of the request; the rest are the functions they call. Redirect/Scrubbed is about the
--   headers and the number of requests.
-- * Reauth (middleware/reauth.go): `act` is one step of a request, with the sections of
--   reauthBarrier.execute under the mutex as `execute` and `finish`, and the loop of ReAuth as the
--   places where a request can be; `Reach` is reachability of the barrier with all requests.
--   Reauth/Effects and Reauth/Invariant carry the invariant, Reauth/SingleFlight is about all
--   requests, Reauth/Requests about one.
-- * Proxy (proxy/proxy.go): Proxy/Pool has the clients, each with a tracker of Health, and the
--   operations on the pool; Proxy/Rotation has Do as `rotator_do`, its loop as `rounds`, one round for
--   each client as in the code, and handleProxyResult; Proxy/Router is DomainProxyRouter over Trie.
--   Proxy/Rule is the rule for a property of the attempts, Proxy/Served, Proxy/Once, Proxy/Cooldown
--   and Proxy/Sticky are about Do.
-- * Circuit (middleware/resilience.go): `circuit_break` is the handler of CircuitBreak with
--   `get_breaker`, over the breakers of foundation as a parameter; requests come one after another.
--   Circuit/Isolation is about the hosts, Circuit/Answers about what is returned.
-- * Dispatch (pipeline/resilience.go): `dispatch_request` is DispatchRequest,
--   `execute_with_proxy_failover` with `failover_loop` the failover, which recurses on the attempts
--   that the limit allows. Dispatch/Hedging is dispatchHedgingAttempts, driven by the events of its
--   select, so that every order of them is a list. Dispatch/Race and Dispatch/Failover are about them.
-- * Download (internal/download/download.go): `execute_download` is Execute, with `attempts` for its
--   loop, which recurses on the attempts that are allowed, and saveResponseBodyToFile over files that
--   are a function from paths. Download/Completed and Download/Recovered are about it.
-- * HttpCache (pipeline/cache.go): `get_cache`, `save_to_cache` and `invalidate_cache` on the store of
--   Cache; HttpCache/Keys has NormalizeCacheURL, ComputeCookieIndicesHash and the parser of
--   No-Vary-Search. HttpCache/Stored and HttpCache/Vary are about them.
-- * Dns (dns/cache.go, stale.go, error.go, dns.go and security.go): Dns/Cache has the entries of
--   InMemoryDNSCache and what they answer, Dns/Cache/Lookup its LookupIPAddr as `lookup_ip_addr`, with
--   `flight` for the function that is in flight. Dns/Cache/Fresh, Dns/Cache/Negative,
--   Dns/Cache/Stale and Dns/Cache/WellFormed are about it. Dns/Error has the errors, Dns/Resolvers the
--   resolvers made of others and ValidateQueryMatch, Dns/StaleFirst the StaleResolver, whose background
--   refresh ends in a step of its own, `end_refresh`.
--
-- State is passed explicitly. A locked section is one step, and so is a call of Do; the goroutines
-- and their interleavings within a step are not modelled, but those of Reauth and of the race of two
-- attempts in Dispatch/Hedging are. A Go map is an association list (the
-- trie, the cookie jar) or a function from keys (the caches). The clock is an argument. A uint32,
-- uint64 or int64 that can wrap has its wrap-around written out. The only bounds on rounds are
-- those that the code has, in `read_frame`, `rounds`, `failover_loop` and the two loops named
-- `attempts`, and the fuel of `consume_sse_response`, `all_values` and
-- `read_grpc_web_frames_bytes`; all else is structural recursion.
--
-- What is not in the repository is a parameter: the packages of foundation, the XOR of a mask,
-- DEFLATE (compress/flate), url.Parse and net.ParseIP, the public suffix list, the time format of
-- an Expires attribute, the hash of a key, generic.LRU, the random numbers, and the clients, timers
-- and contexts of the balancer and of the retry loop, the resolvers, the least time to live of a
-- set of DNS records, and the replies and the decoder of a stream, gzip, base64 and the Protobuf
-- decoder, the URIs and the header directives of mach, generic.Cache, JSON, SHA-256, and the circuit
-- breaker with the map of breakers; and of the standard library also strings.EqualFold where the code
-- uses it on other texts than ASCII. The laws assumed of them stand in the record or the hypothesis
-- that names them.
--
-- Not modelled: dialling, TLS and ECH, HTTP/2 and HTTP/3 transports, DNS transports, the io_uring
-- and shared-memory layers, telemetry, codecs and the request builder, which are I/O, glue, or
-- calls of other packages; the channels and iterators over a stream, which pass its values on; the
-- rate limiting middleware, which calls the limiters of foundation.
pub mod Balancer
pub mod Base
pub mod Cache
pub mod Circuit
pub mod Cookie
pub mod Dispatch
pub mod Dns
pub mod Download
pub mod Health
pub mod HttpCache
pub mod Proxy
pub mod Reauth
pub mod Redirect
pub mod Referer
pub mod Retry
pub mod Stream
pub mod Trie
pub mod Ws
