-- ===== src/Lib.antt =====
-- A model of hashiverse, a peer-to-peer network for posts. Servers are nodes of a Kademlia-like
-- hash table: an id, and every place at which posts are stored, is a byte string, and the servers
-- whose ids share the most leading bits with a place are responsible for it. A place is a bucket of
-- time about a user, a hashtag or a post. A server keeps for each place a signed bundle of posts and
-- a bundle of votes ("feedback"), each vote with the proof of work behind it; votes and bundles are
-- merged as they travel. Clients reach servers through a filter that counts connections.
--
-- The files, and what they model (paths from the repository's root):
--
--   Prelude      names of the libraries passed on, Boolean tests, lists measured by native numbers,
--                byte strings and big-endian numbers, results (an error or a panic), i64.
--   Assoc        the hash maps and tree maps, as association lists.
--   Agreement    leading_agreement_bits_xor and count_leading_zero_bits of
--                hashiverse-rust/hashiverse-lib/src/tools/tools.rs, against strings of bits.
--   Time         TimeMillis and DurationMillis of hashiverse-rust/hashiverse-lib/src/tools/time.rs:
--                bytes, saturating arithmetic, constants.
--   Buckets      BucketLocation and the ladder of durations of
--                hashiverse-rust/hashiverse-lib/src/tools/buckets.rs.
--   Buffer       reads of arrays and numbers, hashiverse-rust/hashiverse-lib/src/tools/types.rs.
--   Crypto       hash_multiple, apply_chained_hash and pow_measure, from
--                hashiverse-rust/hashiverse-lib/src/tools/hashing.rs and pow.rs.
--   Gatherer     BytesGatherer, hashiverse-rust/hashiverse-lib/src/tools/bytes_gatherer.rs.
--   Feedback     EncodedPostFeedbackV1 and its view,
--                hashiverse-rust/hashiverse-lib/src/protocol/posting/encoded_post_feedback.rs.
--   FeedbackBundle  EncodedPostBundleFeedbackV1: to_bytes, from_bytes, verify, the lookups, the
--                merge; hashiverse-rust/hashiverse-lib/src/protocol/posting/
--                encoded_post_bundle_feedback.rs. It stands on Feedback and Crypto.
--   PostBundle   EncodedPostBundleV1: to_bytes, from_bytes, verify and the hash that is signed;
--                hashiverse-rust/hashiverse-lib/src/protocol/posting/encoded_post_bundle.rs.
--   Kademlia     the routing table of a server,
--                hashiverse-rust/hashiverse-server-lib/src/server/kademlia/kademlia.rs.
--   Store        MemEnvironmentStore,
--                hashiverse-rust/hashiverse-server-lib/src/environment/mem_environment_store.rs.
--   Ddos         DdosScore, DdosConnectionGuard and MemDdosProtection,
--                hashiverse-rust/hashiverse-lib/src/transport/ddos/ddos.rs and mem_ddos.rs; its state
--                is a step relation over the calls that clients cause, in any order.
--   Cache        PostBundleCache: on_get, whose two steps (look, answer) others may come between,
--                on_upload and its eviction loop,
--                hashiverse-rust/hashiverse-server-lib/src/server/post_bundle_caching.rs and
--                post_bundle_caching_shared.rs.
--   FeedbackCache  PostBundleFeedbackCache,
--                hashiverse-rust/hashiverse-server-lib/src/server/post_bundle_feedback_caching.rs.
--   ClientStorage  MemClientStorage and BUCKETS,
--                hashiverse-rust/hashiverse-lib/src/client/client_storage/mem_client_storage.rs and
--                client_storage.rs.
--   Visitor      RecursiveBucketVisitor::visit, against a recursion over the ladder (Visitor/Walk),
--                hashiverse-rust/hashiverse-lib/src/client/timeline/recursive_bucket_visitor.rs.
--   Peer         Peer, PeerPow and ClientPow, hashiverse-rust/hashiverse-lib/src/protocol/peer.rs.
--   ServerId     ServerId: its proof of work, its peer, its bytes on disk,
--                hashiverse-rust/hashiverse-lib/src/tools/server_id.rs.
--   PowGenerator the pool of workers that search for proofs of work,
--                hashiverse-rust/hashiverse-lib/src/tools/pow_generator/pow_generator.rs. What a
--                server identity relies on of it (Works, ServerId/Verified) is proved of it.
--   Compression  hashiverse-rust/hashiverse-lib/src/tools/compression.rs.
--   Rpc          the frames of requests and responses, rpc_request.rs and rpc_response.rs of
--                hashiverse-rust/hashiverse-lib/src/protocol/rpc. It stands on Compression, Peer and
--                ServerId.
--   Dispatch     the loop of a server around its handlers: the guard against replay, the proof of work
--                that counts for the server, the reply;
--                hashiverse-rust/hashiverse-server-lib/src/server/handlers/dispatch.rs. It stands on
--                Rpc, Peer and ServerId.
--   Pen          RecentPostsPen,
--                hashiverse-rust/hashiverse-lib/src/client/timeline/recent_posts_pen.rs.
--   Radius       CacheRadiusTracker,
--                hashiverse-rust/hashiverse-lib/src/client/caching/cache_radius_tracker.rs.
--
-- How the code corresponds. A struct is a record, an enum a data type, and a function bears its name
-- in the source. A method on `&mut self` takes the state and gives the new one; what holds a lock
-- while it runs is one step. `anyhow::Result` is Result, in which an error is told by its kind and a
-- Rust panic is a value of its own. A `usize` has 64 bits: where the source adds without a check, the
-- model takes the sum modulo 2 ^ 64. The loops recurse over a list or a given number of rounds;
-- the evictions of Cache get a round for each entry, since each takes an entry away, and
-- the loops of Visitor and PowGenerator get a number of rounds, `none` being too few.
--
-- Parameters: the digests and the signatures (Crypto, Signer), LZ4 and Brotli (Codecs), the JSON of
-- serde (Json), the peer and the decoding of a post in a bundle (Parts), the postcard bytes of
-- metadata, the f64 of scores (Float), the unstable sort of the standard library and the order in
-- which a hash map lists its values, the handlers of requests and the moka cache of salts
-- (SaltCache), of which only what the documentation promises is a hypothesis. Toy instances stand in
-- the modules called Toy and Examples; Examples hold the runs and the theorems at concrete inputs.
--
-- Not modelled: sockets and transports, the language bindings, the vendored moka cache, the generation
-- of signatures and random numbers, logging and printing, the handlers of requests, the timelines,
-- the format of a single post and the stores on disk.
pub mod Prelude
pub mod Agreement
pub mod Assoc
pub mod Buckets
pub mod Buffer
pub mod Cache
pub mod ClientStorage
pub mod Compression
pub mod Crypto
pub mod Ddos
pub mod Dispatch
pub mod Feedback
pub mod FeedbackBundle
pub mod FeedbackCache
pub mod Gatherer
pub mod Kademlia
pub mod Peer
pub mod Pen
pub mod PostBundle
pub mod PowGenerator
pub mod Radius
pub mod Rpc
pub mod ServerId
pub mod Store
pub mod Time
pub mod Visitor
