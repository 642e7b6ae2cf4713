-- ===== src/Lib.antt =====
-- PipeFabric: the stateful operators of the stream engine, its complex event processor, and its
-- tables.
--
-- A query is a graph of operators. An operator publishes stream elements, each with a flag that
-- tells whether it is new or outdated, and punctuations; the operators behind it handle these one
-- after the other. An element that a window published as new is published as outdated once it
-- leaves the window, and every operator behind a window takes back what it did for the element.
--
--   Prelude (and below)   lists, tests and lemmas; the numbers of the aggregates
--   Stream                src/core/Punctuation.hpp and the data channels: an event is an element
--                         with its flag or a punctuation; `run` and `try_run` hand a list of events
--                         to an operator
--   Window                src/qop/Window.hpp: the state of a window and its constructors
--   Window/Sliding        src/qop/SlidingWindow.hpp: processDataElement, evictByCount, evictByTime,
--                         setupEviction; `tick` is one round of EvictionNotifier (Window.cpp)
--   Window/Tumbling       src/qop/TumblingWindow.hpp: the same for tumbling windows
--   Batch                 src/qop/Batcher.hpp: Batcher and UnBatcher
--   Join/Table            updateHashTable of SHJoin.hpp and ScaleJoin.hpp, on a list of entries for
--                         the unordered_multimap, whose order is that of the list
--   Join/Reference        the nested-loop join that the hash joins are compared with
--   Join/Symmetric        src/qop/SHJoin.hpp: a step per data element of either side
--   Join/Scale            src/qop/ScaleJoin.hpp and Pipe::scaleJoin of src/dsl/Pipe.hpp: the
--                         join, and the instances of it behind the queues of their left inputs, whose
--                         threads take turns (Join/Scale/Lanes)
--   Tx/Version            MVCCObject, transactionCommit and getByKey of src/table/MVCCTable.hpp,
--                         for one record: a list of slots stands for headers, usedSlots and values
--   Tx/Context            StateContext of src/table/StateContext.hpp: the active transactions, with
--                         getFreePos of StateContext.cpp as the first free entry
--   Tx/Commit             MVCCTable of src/table/MVCCTable.hpp: its write set, transactionCommit on the
--                         whole table, getByKey, and transactionPreCommit over two tables
--   Tx/Locking            src/table/S2PLTable.hpp: the locks of the keys, and the calls that use them
--   Tx/WriteSet           the write set of a transaction, and what transactionCommit keeps of it
--   Tx/Validation         src/table/BOCCTable.hpp: the log of committed write sets, its clean-up and
--                         the validation of readers; Validation/Lock is the lock of the log, as the
--                         steps of its threads
--   Table                 src/table/HashMapTable.hpp with its notifications, src/qop/ToTable.hpp and
--                         src/qop/FromTable.hpp; Table/Mirror is an observer with a copy of the table
--   Tuplifier             src/qop/Tuplifier.hpp: rows from triples, in each of its modes
--   Routing/Queue         src/qop/Queue.hpp: the queue between two threads, as a step relation on its
--                         state, with what was received and published so far; a punctuation has
--                         its data and its timestamp here, which other operators do not read
--   Routing/Partition     src/qop/PartitionBy.hpp: each partition is what its queue received
--   Cep                   src/cep: the automaton (state, edge, NFAController.hpp), the structures of
--                         NFAStructure.hpp, and checkPredicate of CEPEngine.hpp
--   Cep/Engine            the rest of CEPEngine.hpp, engine/FirstMatchEngine.hpp,
--                         engine/NextMatchEngine.hpp, StructurePool.hpp and Matcher.hpp
--   Cep/Search            a search for matches through a list of events, to compare the engines with
--   Cep/Pattern           the engines on the automaton of a SEQ: Pattern/First is FirstMatchEngine,
--                         Pattern/Next is NextMatchEngine
--   Aggr/Sums             AggrSum, AggrCount and AggrAvg of src/qop/aggr_functions
--   Aggr/Counters         std::map with its comparator: entries in the comparator's order
--   Aggr/MinMax           AggrMinMax of src/qop/aggr_functions
--   Aggr/Median           AggrMedian of src/qop/aggr_functions
--   Aggr/Recent           AggrLRecent of src/qop/aggr_functions
--   Aggr/Distinct         AggrDCount of src/qop/aggr_functions
--   Aggr/Grouped          src/qop/GroupedAggregation.hpp and AggregateStateBase.hpp: a state for each
--                         group; Grouped/Groups has one group by itself
--   Aggr/Operator         src/qop/Aggregation.hpp: the operator around an aggregate state, with
--                         its triggers; the state and its functions are parameters
--
-- A module below one of these has the lemmas and theorems about it; Tests and Examples are runs of
-- the definitions on concrete values.
--
-- A call that the C++ code leaves undefined, a failed assertion and an exception are `none`. An
-- unsigned int wraps at 2^32, std::size_t and TransactionID at 2^64; ℤ stands for the values that
-- AggrSum and AggrAvg add up, which are taken not to overflow; AggrAvg's result is an int. A timestamp is a number of
-- microseconds. Loops over a container are structural recursion; the loop of evictByCount recurs
-- on the buffer, and faults where the C++ code would take the front of an empty list. The loop of
-- transactionCommit that waits for a free slot takes a list with the oldest visible version of
-- each of its rounds, and `none` for a loop that goes on behind them. The walk of checkPredicate
-- along the negation states takes the number of states as fuel: a longer walk has come to a state
-- twice, and goes round for ever, which is `none` too. A search for all matches takes the number
-- of events as fuel, since each match takes at least one of them. A lock that its own thread takes
-- again is `none`; a writer of S2PLTable that waits for readers has what they do in the meantime as
-- a list, and is `none` where they do not leave. Hash tables with one entry for each key are
-- association lists (Prelude/Assoc).
--
-- An iterator of AggrMedian is the key that it points to. The wait of a commit for a free slot has
-- the versions that its rounds clean up to as a list; the theorems on whole tables give one round,
-- and prove that it is enough.
--
-- Parameters of the model are the functions that an operator is built with: timestamp extractor,
-- window function, key extractors, edge predicates and the update of related values, join predicate,
-- the joining of two elements, comparators; then vector::max_size(), the default element of a vector,
-- the conversion of a key to key_t and back, and the empty string.
-- An element's operator== is an equality (`Eq`).
--
-- Not modelled: threads and locks, but for the eviction thread's calls, the queue, the turns of
-- ScaleJoin's queues, which hand one tuple on at a time, the lock of
-- BOCCTable and the locks of S2PLTable, whose calls do not overlap but for a writer's wait; the
-- order that a hash table keeps entries in; the stateless operators, Merge and Barrier; the
-- tables on cuckoo hashing, RocksDB and persistent memory, and TxTable; the global extrema, and the aggregate states of a grouped aggregation; the related values and the
-- expressions of the complex event processor, which are parameters; the network sources and sinks,
-- which are input and output; the parsers and the query compiler.
pub mod Prelude
pub mod Stream
pub mod Window
pub mod Batch
pub mod Join
pub mod Tx
pub mod Aggr
pub mod Cep
pub mod Routing
pub mod Table
pub mod Tuplifier
