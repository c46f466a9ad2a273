-- ===== src/Lib.antt =====
-- CryptBank: a small cryptocurrency node kept in one process. `Chain` receives blocks and
-- transactions, keeps the active chain and its forks, and drives four parts: the coin database
-- (unspent outputs and the mempool), the chain writer (blocks and undo blocks in files), the block
-- info database (where each block is and at what height) and the hash function.
--
-- Files and the sources that they model:
--   Db             core/src/db/db.cpp: the hash table, batches
--   Primitives     core/src/primitives/*.cpp: blocks, headers, transactions, inputs, outputs
--   Proto          the message classes of core/include/proto/crypt.pb.h, and as the interface `Proto`
--                  their serialisation, which the protobuf runtime does
--   Records        coin_database/coin_record.cpp, undo_coin_record.cpp, chain_writer/undo_block.cpp,
--                  file_info.cpp and block_info_database/block_record.cpp, all below core/src
--   BlockInfo      core/src/block_info_database/block_info_database.cpp
--   Crypto         core/src/crypto/cryptcrypto.cpp: SHA-256 and `hash`. Its specification is the
--                  padding rule: Crypto/Blocks
--   Locator        `CoinLocator` of core/src/coin_database/coin_database.cpp
--   Coins          `CoinDatabase` of the same file; Coins/Undo is `undo_coins`. Its specification is a
--                  set of coins: Coins/View says how often a coin is held in cache and database,
--                  Coins/Represents when a database stands for a set, Coins/Spend, Coins/Add and
--                  Coins/Apply what an input, an output and a block do to it
--   Writer         core/src/chain_writer/chain_writer.cpp over a file system of its own
--   Chain          core/src/chain/chain.cpp: the queries; Chain/Handle is the constructor,
--                  `handle_block` and `handle_transaction`, Chain/Reorg the takeover by a fork. Its
--                  specification is a list of blocks with a set of coins: Chain/History; Chain/Grown
--                  has the sequences of calls as a relation and Chain/Genesis, Chain/Grow,
--                  Chain/Beside and Chain/Overtaken its steps, Chain/Ranges the queries on the list.
--                  Chain/Aside is the state after a block went on a fork, Chain/Recorded and
--                  Chain/Undone the undo blocks from their writing to their reading (with
--                  Records/Truncated and Writer/Ranged), Chain/Undisturbed the sequences that keep
--                  them, Chain/Ancestor the search for the common ancestor, Chain/Longer and
--                  Chain/Overtake the takeover made of these and Chain/NoUndo the one after it;
--                  Chain/Meeting says which block a takeover stores from any state
--   Text           `std::to_string`, `std::stoul` and the searches of `std::string` as the sources
--                  use them, on lists of bytes
--   Env            what the program does not determine: the serialisation of messages, what the
--                  stack holds where `hash` reads it unset, and which paths `fopen` opens
--   Prelude        shared names, equality of keys, maps and list lemmas
-- The definitions have the names of the C++ functions. A method takes the state of its object and
-- returns the new one; the result `none` stands for a fault: a null dereference, a read behind the
-- end of a vector, an erase at the end, an exception of `std::stoul` or `std::string`. Numbers are
-- natural numbers, with the wrap-around of `uint8_t`, `uint16_t`, `uint32_t` and `uint64_t` written
-- out. A loop is a recursion over its list or over the number of rounds left; the loops of
-- `undo_coins`, whose bounds are unusual, run on fuel 2, which is enough since the first or the
-- second test ends them, and their results tell running out of fuel from a fault.
--
-- Assumptions: parsing gives back a serialised message whose fields fit their types and whose strings
-- are ASCII, the empty string parses to the default message, and a block message with a header that
-- is set is not written as the empty string. The unset stack contents are taken to be the same at each
-- call of `hash`. `fopen` for reading finds each file that is there, and a write is complete. An
-- `unordered_map` is a list of pairs, newest keys last or first as the operation puts them; the
-- order in which `flush_main_cache` visits the coins is that of the list. The mutex of the database
-- is not modelled. The code generated from core/include/proto/crypt.proto is not modelled beyond the
-- fields of its classes, since it rests on the protobuf runtime.
pub mod Prelude
pub mod Text
pub mod Db
pub mod Proto
pub mod Primitives
pub mod Records
pub mod BlockInfo
pub mod Crypto
pub mod Env
pub mod Locator
pub mod Coins
pub mod Writer
pub mod Chain
pub mod Examples
