-- ===== src/Lib.antt =====
-- CppDB is an in-memory relational database. A TCP server (src/network/tcp_server.cpp) passes each
-- line of a connection to the query executor, which lexes it, parses it, and runs the statement on
-- the tables of a database. A table keeps its rows in a B-tree by their id, and a cache of hot rows.
--
-- The files, and the code that each models:
--   Prelude: shared names; Boolean tests, lists indexed by native numbers, exceptions as values.
--   Core/Int64: int64_t and its text, as src/core/schema.cpp and src/core/row.cpp read and print it.
--     A value v is held as v + 2 ^ 63, so that comparisons are those of ℕ and min is 0.
--   Core/Schema, Core/Row: src/core/schema.cpp, src/core/row.cpp, and their headers.
--   Core/Stores: what src/core/table.cpp uses of BTree and LRUCache, each as a record of operations
--     and a record of laws over the list of entries (Structures/SortedMap).
--   Core/Engine: the two records filled with the models of BTree and LRUCache.
--   Core/Table: src/core/table.cpp over these two records. Coherent is about reads and insertions,
--     Deletes and Updates about the changes, History about all tables that can come to be.
--   Core/Database: src/core/database.cpp over the model of HashMap. A handle of a table is its slot.
--   Query/Token, Query/Lexer: src/query/lexer.cpp.
--   Query/Ast, Query/Cursor, Query/Parser: src/query/parser.cpp, as functions on the tokens left.
--   Query/Executor: src/query/query_executor.cpp; Run has the statements and execute.
--   Structures/BTree: include/structures/BTree.hpp at int64_t keys; Removal is remove and what it
--     calls, Range the range scan, Assign a write through the pointer that search returns,
--     Check is checkInvariants, on nodes that need not be well-formed.
--   Structures/HashMap: include/structures/HashMap.hpp for any keys with an equality and a hash.
--   Structures/LruCache: include/structures/LRUCache.hpp over that map; Recency is the specification,
--     the list of the entries from the most to the least recently used.
--   Structures/SortedMap: the ordered map that the tree is compared with.
--   Concurrency/RwLock: include/concurrency/RWLock.hpp and src/concurrency/rwlock.cpp, as steps of
--     threads.
--   Concurrency/LockFreeQueue: include/concurrency/LockFreeQueue.hpp, as steps of producers and of the
--     consumer.
--   Concurrency/ThreadPool: include/concurrency/ThreadPool.hpp and src/concurrency/thread_pool.cpp, as
--     steps of the workers and of the threads that use the pool.
--   Network/Strand: a connection of src/network/tcp_server.cpp, as steps of the event loop and of the
--     tasks that execute its queries.
--   Storage/PoolAllocator: include/storage/PoolAllocator.hpp, a pointer as the number of its block.
--   Tests: the theorems at concrete inputs.
--
-- How the code is held: a function that may throw returns a Result; a method that changes its object
-- returns the object with the outcome, also where it throws. undefined_behaviour stands for what the
-- source does not define, such as a read past the end of a vector. Each method of Table and Database
-- is one step. The methods that change a table hold its lock alone; those that read share it, and
-- findById takes the mutex of the cache twice, so that two reads at once may interleave between the
-- two, which is not modelled.
--
-- Fuel: the loop of tokenize runs on the length of the query plus one, and each round takes a byte;
-- the loops of the parser over lists run on the number of tokens, and each round takes one. The loop
-- that prints digits runs on the number plus one, and each round divides it by 10. A node of the
-- B-tree carries its height in its type, so that descents are by recursion on it. The loops of
-- HashMap over its slots run on the number of slots, which is one round of the table; the doubling of
-- a capacity runs on the capacity that is asked for.
--
-- Not modelled: SharedPtr and UniquePtr, since a tree that owns its nodes is a value here; of the TCP
-- server its sockets and the loops that wait on them, for which the model of a connection takes what
-- the calls return; the moves of PoolAllocator and its arena; the destructor
-- of LockFreeQueue; loadFactor of HashMap, which is a floating-point quotient; main and the benchmark.
pub mod Prelude
pub mod Core
pub mod Structures
pub mod Query
pub mod Concurrency
pub mod Storage
pub mod Network
mod Tests
