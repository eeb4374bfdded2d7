-- ===== src/Lib.antt =====
-- The chain of free_labour_common_will: trees of keys, branches of signed blocks, bilateral merges,
-- revocations and fraud proofs, from modules/blockchain (src/*.cpp and include/blockchain/*.h); the
-- cache of past merges and the dialogue of a merge from modules/sync; and the settlement of deals from
-- modules/records.
--
-- A user's chain is a heap of nodes; each node is signed by its parent's key and carries a branch of
-- blocks. Two users merge their branches: they exchange tips and snapshots, each drafts a MERGE block
-- that commits the union of the snapshots, and each co-signs the other's draft. A participant keeps what
-- the snapshots leave out in a cache, from which proofs of fraud are built. The blocks carry records: a
-- deal is paid in bills, the seller answers it, and readers decide which deals count.
--
-- Files:
-- - Base: the shared names, Boolean tests, lists over the native numbers, signed integers.
-- - Types: types.h and errors.h. Types.Tree is the index arithmetic of the node tree, Types.Outcome the
--   exceptions and the calls that may throw, Types.Packets the data of the other headers.
-- - Serializer: serializer.cpp. Writer and Encode hold the write_head, w_ and enc_ functions, Reader the
--   class CborReader, Decode the dec_ functions, Reads and RoundTrip what relates the two.
-- - Crypto: crypto.cpp over libsodium, whose functions are the parameter Sodium and whose documented
--   behaviour is the hypothesis SodiumLaws. Signing: the signed bytes, and the builders of signed nodes
--   and blocks of blockchain.cpp.
-- - Merkle, Hll, Snapshot: merkle.cpp, hll.cpp, merge_snapshot.cpp. Merkle.Strings are the byte strings
--   that a root and a proof are hashes of; Inclusion, Trees, Descent and Binding hold theorems.
-- - Storage: the interface IStorage of storage.h, a record of operations that the other parts take.
--   Storage.Laws is what the header promises of an implementation.
-- - Lmdb: storage.cpp, which implements IStorage over LMDB. Interface is the calls of LMDB, a parameter,
--   with the promises of its manual as the hypothesis LmdbLaws; Keys and SealList are the encodings,
--   Storage and Foreign the member functions; Order, Tip, Filled, Calls and Laws hold theorems.
-- - KeyPath, Revocation, Fraud: key_path.cpp, revocation.cpp, fraud.cpp. Fraud.Rules says what the verdicts
--   rest on; Verdicts and Sound hold theorems.
-- - Validator: validator.cpp. Nodes, Records (collect_revocations and effective_revocation), Branch
--   (validate_branch and branch_revocation_status) and Revocations hold the operations, Fuel, Chain and
--   Agreement the theorems.
-- - Blockchain, MergeSession, SealManager: blockchain.cpp, merge_session.cpp, seal_manager.cpp.
-- - Sync: modules/sync/src/participant_cache.cpp in Cache, and publish_cache and complete_cache of
--   modules/sync/src/snapshot_exchange.cpp in Exchange, over any warehouse. Consistent, Climb, Arrival,
--   Visit, Explore, Path, Proofs, Untrusted and Reachable hold theorems.
-- - Dialogue: modules/sync/src/wire_cbor.h and the wire format of modules/sync/src/merge_dialogue.cpp in
--   Wire, the class MergeDialogue in Machine. Agreed, Kept, Calls, Reached, Heads and
--   Envelopes hold theorems.
-- - Records: the records of an exchange from modules/records/include/records/types.h in Types,
--   modules/records/src/settlement.cpp in Settlement and Bill, and recognize_deals of
--   modules/records/src/acceptance.cpp in Acceptance. FirstWord, Thread, Recognition, Earliest and
--   Verdicts hold theorems.
-- - Examples: a toy signature scheme and store, and the theorems at concrete inputs.
--
-- A byte array is the list of its bytes, and the sizes of the C++ types are stated where a theorem needs
-- them (the records in Serializer.RoundTrip.Wellformed). An exception is a value of Error, and state is
-- passed explicitly. Time stamps are integers with the range of int64_t stated where it is needed.
--
-- Loops are structural recursion. Where the source's loop shrinks an index or a level of the tree, the
-- fuel is that index or that level's length. effective_revocation calls itself on authors, whose index is
-- smaller, so the node's index is its fuel. merkle_path's search takes a hash off its stack in every
-- round, and each of the two children of a composition enters it once at most, so that twice the number
-- of compositions and two more rounds are enough; its way back up has as many steps as hashes were met.
-- The rounds of complete_cache, whose number depends on the warehouse, are counted by an argument.
--
-- Not modelled: the opening of LMDB's environment and the explicit transactions of begin_write (a call
-- that throws leaves the databases as they were), the tables of a persistent participant cache, the
-- warehouse over HTTP, key generation, the floating-point estimate of a sketch, the
-- texts of exceptions, the codec of the typed records, the threads of goods, credit and carrying, and
-- the modules aggregator and cli, which are views, servers and printing. The type double and its
-- operations are the parameter Doubles. std::sort is insertion by the same comparison, a hash table a
-- list of pairs, and a set the list of what was inserted. A counter over blocks does not wrap, since the largest
-- index marks an empty branch.
pub mod Base
pub mod Types
pub mod Serializer
pub mod Crypto
pub mod Merkle
pub mod Hll
pub mod Snapshot
pub mod Storage
pub mod Lmdb
pub mod Records
pub mod Sync
pub mod Signing
pub mod KeyPath
pub mod Revocation
pub mod Validator
pub mod Fraud
pub mod Blockchain
pub mod MergeSession
pub mod SealManager
pub mod Dialogue
pub mod Examples
