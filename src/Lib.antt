-- ===== src/Lib.antt =====
-- A verification library of common-tools, a Go library for services: a cluster with leader election, data
-- structures, framed messages, a Kafka client, limiters, a web framework. Each part below is translated
-- from the source file that is named with it; the function and field names are the source's own, in snake
-- case. Basic/DelayQueue uses Basic/PriorityQueue, Cache/Lru the record of Basic/LinkedHashMap, Cache/Lfu its methods, and
-- Kafka/Consumer and Kafka/Client use Kafka/Retry and Basic/RingQueue; the other parts do not call each
-- other.
--
-- Prelude, Prelude/*: what the parts share. Numbers are native natural numbers; Prelude/Int has signed
-- 64-bit numbers, with the wrap-around where the source can reach it.
--
-- Cluster, Cluster/*: the nodes of a cluster elect a leader (cluster/cluster.go, node.go, event.go,
-- grpc_server.go).
--   Cluster/Node: the record Node and its methods: heartbeats, health score, isNodeHealthy.
--   Cluster/State: the record Cluster of a member, the state constants, isReady, the quorum, the event queue.
--   Cluster/Leader: signLeader, releaseLeader and releaseWithNodeName.
--   Cluster/Rpc: the answers to the four requests (AskVote, AskLeader, BroadcastLeader, Heartbeat) and the
--     vote map. Rpc/Votes is about votes and terms, Rpc/Coherent about state and leader.
--   Cluster/Connect: reconnect, which dials the nodes that are not alive or have no client.
--   Cluster/Election: fightingWithRetry. Each round of its two loops takes what the world gives it: the
--     requests that the member serves meanwhile, the time, which nodes have a client and which can be dialled, and the answers
--     that came back. Election/Kept shows once what a run keeps if its parts do, Election/Preserve is about
--     its votes, term and state, Election/Scan about the answers to AskLeader, Election/Won about its end.
--   Cluster/Heartbeat: the loop of heartbeat by its ticks; what the streams to the other nodes report is
--     an argument of a tick.
--   Cluster/Lifecycle: Start and Close, with the event channel, which is nil before the first Start and closed after a
--     Close; a send on a closed one panics.
--   Cluster/Scheduler: the job tracker of scheduler.go, and consumeEvent. Scheduler/Mirror relates its
--     tickers to the leader that its member has: Mirror/Events is about the events of one change of the
--     leader, Mirror/Changes about all of them, Mirror/Requests about requests and elections, Mirror/Ticks
--     about the loops, Mirror/Whole about a member from Start on.
--   Cluster/Redis: the mode "redis" of cluster_redis.go, by the ticks of its jobs. What Redis answers is an argument. The
--     recursion of redisFightingWithRetry is on the retries that maxRetries leaves. Redis/Lease is about the key, Redis/Nodes about the
--     list of nodes.
--   Cluster/RemoteCall: CallFunc, and remote_call.go; RemoteCall/Once is about the result of a call.
--   Cluster/Safety: the votes of all members of a cluster together, as a step relation.
-- A member takes a step at a time: a handler, or a part of the election between two calls to other nodes.
-- The loops of an election run on a list of rounds; a list that ends before the loop does gives the outcome
-- `again`, as the loops of the source go on until the member is ready or closed. Terms stay below 2^31, so
-- the conversions between `int` and `int32` keep them.
--
-- Basic/RingQueue: the bounded queue of pkg/basic/safe_ring_queue.go, its methods as steps under the
-- mutex, and in RingQueue/Monitor the blocking ones with their condition variables, for any number of
-- threads in any order.
--
-- Basic/PriorityQueue: the binary heap of pkg/basic/object_priority_queue.go. The order of the strings, as
-- bytes, is spelled out. A look-up out of range panics. The loop of `up` runs on fuel, one more than the index,
-- and that of `down` on one more than the size: the index falls or rises with every round. What
-- capacity `append` gives a full slice is the parameter `grow`. PriorityQueue/Swaps has the heap order,
-- Up and Down the two loops, Offer, Poll and Search the methods.
--
-- Basic/DelayQueue: pkg/basic/delay_queue.go over that heap. DelayQueue/Decimal is about times printed in
-- decimal, Timer about `Add`, Take about a try to take, Reach about many threads. Times are natural numbers: the
-- priority of a time from 1970 on. The timer is set, has fired, or its tick has been received; that a reset comes some time
-- after the clock was read is the argument `lag`, at most `slack` in Reach. A reset takes back a tick that nobody has
-- received, as it does since Go 1.23.
--
-- Basic/LinkedList: pkg/basic/linked_list.go, on a heap of nodes as below. LinkedList/Chained is about the links, Ends
-- about any calls that add at the ends and remove at the front. The search of indexOf runs on fuel; the size plus one is
-- enough.
--
-- Basic/LinkedHashMap: pkg/basic/linked_hash_map.go. Nodes lie on a heap, a function from addresses; nil is
-- `none`, and a Go map of pointers is a function to addresses with its count. Basic/Chain is about the
-- neighbours in a list of addresses. LinkedHashMap/Rep ties the links to such a list, Entries has the
-- abstract operations on the entries, Refine, Move, Put, Ends and Walk relate the methods to them.
--
-- Cache/Lru: pkg/cache/lru.go. Its nodes and list fields are those of the linked hash map, so the record is
-- used again. Lru/Touch and Lru/Equal relate moveToHead to that map's, Store and Evict are the parts of Put,
-- Bound the methods. Each method is one step; what happens between the two locks of Get is left out.
--
-- Cache/Lfu: pkg/cache/lfu.go. The linked hash map of a use count is Basic/LinkedHashMap, each with a heap of its
-- own; Lfu/Bucket says which keys such a map holds, Counts that all of them together hold each key under its count,
-- Left and Evict are about increase and the key that is dropped, Fill and Bound about Get and Put.
--
-- InFlight: the table of keys of pkg/inflight/inflight.go; InFlight/Exclusion is about any sequence of calls.
--
-- Pool: DoFunc of pkg/pool/pool.go; the moves of its goroutines come in any order. Pool/Account says where the items
-- are, Pool/Once that each is done once and that a run ends.
--
-- Nio/Codec: the frames of pkg/nio/codec.go, and the decoding loop of readIO in pkg/nio/handler.go. The
-- coder (none, or gzip) is a parameter. The loop runs on fuel, one more than the bytes of the buffer; each
-- message takes five at least, so it never runs out.
--
-- Kafka/Retry: RetryPolicy.Run and the exponential delays of kafka/retry.go. What the context, the function
-- and the timer do at each attempt is the record World.
--
-- Kafka/Consumer: kafka/v2/consumer.go, what a worker does with a message or a batch (processMessage,
-- processBatch, handleDeadLetter, handleBatchDeadLetter) and how batches are collected (collectBatch,
-- batchQueueCapacity). The types of messages and errors are parameters, as are the handlers.
-- Consumer/Account is about items that are dealt with, Rounds about the retries of a message, Collect
-- about batches.
--
-- Kafka/Client: the state that claims, workers, retries and the commit job of that consumer share: the
-- items, which are pointers here, the channels, the ring queue of each key, the committed messages. Client/Steps has
-- the steps of all threads and the history, Client/Front the loop of commitCompletedOffsets over one
-- queue, whose fuel is one more than the size of the queue; Line, Keep, Finish and Commit are about the
-- invariant, Safety about the committed messages. A step is what a
-- thread does between two points where another one may come in between.
--
-- Not modelled: the gRPC transport and the streams behind the four requests, timers, the connection to a
-- node beyond whether there is one and whether it can be dialled, a full event channel that blocks the sender, events that two
-- threads send in another order than they changed the leader, the registration of a node in Redis, the
-- discovery of nodes by DNS; the periodic jobs and the connection loop of the Kafka consumer, and its
-- producers; logging everywhere; a panic other than an index out of range, a nil pointer or one of a message's handler;
-- the limiters, whose counts are kept by scripts in Redis, the timed jobs of crontab, the sessions of nio, the HTTP
-- engine and its router. The files that call third-party clients only (Redis, databases,
-- ClickHouse, OpenTelemetry) and the copies of other libraries (Hertz, GoFrame's goai, x/net's http2,
-- bytebufferpool, jsonpath) are left out.
mod Prelude
pub mod Cluster
pub mod Basic
pub mod Cache
pub mod Nio
pub mod InFlight
pub mod Pool
pub mod Kafka
