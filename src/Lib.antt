-- ===== src/Lib.antt =====
-- A verification library for the streaming platform: a replicated, append-only log broker in C++.
--
-- A broker is a TCP server (src/network/tcp_server.cpp) over the handlers of src/core/broker.cpp.
-- A handler appends to and reads from the storage engine (src/storage), replicates and commits
-- through the replication manager (src/replication), and keeps consumer groups
-- (src/core/consumer_group_manager.cpp). Messages between clients, brokers and peers are encoded
-- by src/protocol/protocol.cpp and framed by src/protocol/frame.cpp.
--
--   Prelude        tests, lists, integers, keys and maps that the other modules share
--   Text           std::string as a list of bytes: to_string, stoi, prefixes, the order of strings;
--                  Numbers the proofs
--   Protocol       include/protocol/protocol.h and src/protocol/protocol.cpp: Wire has put_* and
--                  get_*, Message the types, Codec requests, Reply responses; RoundTrip and Types
--                  the proofs
--   Frame          src/protocol/frame.cpp: read_exact, wrap_frame, read_frame, write_frame
--   Groups         src/core/consumer_group_manager.cpp: join, leave, rebalance, is_assigned,
--                  next_offset, commit, refresh_topic; Members, Rebalance, Ownership, History and
--                  Offsets the proofs
--   Storage        src/storage: Segment (log_segment.cpp), Log (log.cpp, with Recovery for what the
--                  constructor does) and Engine (storage_engine.cpp); the proofs are in
--                  Segment.Records, in Log.Contents to Log.Refinement (a log is a list of
--                  messages), Log.Rebuild to Log.Reopening (recovery), Log.Pending (the WAL)
--                  and Engine.Contents to Engine.Partitions; Engine.Restart has both together
--   Config         src/config/broker_config.cpp
--   Replication    src/replication/replication_manager.cpp: acknowledgements, quorum, commit index
--                  and election; Exchange has the operations that talk to peers,
--                  Acks, Commits, Follower, Rising, Majority, Progress and Election the
--                  proofs
--   Broker         src/core/broker.cpp: every request handler, in State, Membership (groups) and
--                  Producing; Heartbeats has start and stop, History requests after each other,
--                  Produce, Keeping, Batch, Refusals and Consumer the proofs
--   Link           the connections that src/core/broker.cpp and
--                  src/replication/replication_manager.cpp make to other brokers; Sockets,
--                  Delivery and Forwarding the proofs
--   Cluster        a leader of src/core/broker.cpp with the servers of its followers: Majority has
--                  what an acknowledged produce means, Progress when a produce is acknowledged,
--                  Answers and Lines what the leader reads from a follower
--   Server         src/network/tcp_server.cpp: the queue of connections and the requests of one;
--                  Queue has the threads as a step relation, Start the start of the server,
--                  Replicas and Stream the proofs on requests
--   Main           src/main.cpp: the command line; Start and Peers the proofs
--
-- A C++ object is a record and a method is a function from it to a new one and a result; a method
-- under a mutex is one step. A std::string is a list of bytes, an int an integer, a uint64_t a
-- number with its wrap written out where a value from outside can reach it; sizes and offsets of
-- data that exists do not wrap. Maps are association lists, a std::set of strings its sorted list.
-- A result that the source signals by false or by an exception is a Boolean or `none`.
--
-- The loops over sockets run on the schedule of the system's answers. The loops over files run on
-- fuel: the scan of a segment on the size of the file, as a record takes 8 bytes, and the replay of
-- the WAL on its size, as a record takes 16; the list of peers on its length. Decimal printing runs
-- on the number itself.
--
-- Arguments of the model, as the code does not decide them: how many bytes each recv and writev
-- moves, what peers and the leader answer, the clock, and what a directory holds at the start.
-- A handler takes the answers of peers as it asks for them, by the entry of the peer in the
-- configuration; Link gives them from what each call of the operating system does.
-- A whole handler is one step, although the handlers and the storage engine hold no mutex of their
-- own: what several workers do at once is their handlers one after another. That a call of
-- handle_client returns is not proved: it blocks while its client sends nothing. A log holds its
-- messages where its n-th segment is also the file segment-n.log.
-- Not modelled: signals, what the program prints, failing system calls on files, and the tests. A
-- uint64_t in a file is written lowest byte first, as on the machines that the program is built for.
pub mod Prelude
pub mod Text
pub mod Protocol
pub mod Frame
pub mod Groups
pub mod Storage
pub mod Config
pub mod Replication
pub mod Broker
pub mod Link
pub mod Cluster
pub mod Server
pub mod Main
