-- ===== src/Lib.antt =====
-- A model of the toy exchange and the theorems that make it correct.
--
-- The program. exchange/main.cpp runs four threads that hand messages on through bounded queues of
-- one producer and one consumer. The gateway decodes the messages of its clients to orders and
-- cancels; the matching engine thread matches them, one engine per ticker, and pushes an event for
-- each of them and for each trade, and the trades; the publisher sends the events; the inventory
-- thread settles the trades in the accounts of the users, at the mid price that it reads from the
-- engine. At shutdown each thread drains its queue once the thread before it has been joined.
--
-- The files.
--   Base: lists measured by native numbers, integers, Boolean tests and `while` on fuel.
--   Core/Types: common/core/types.hpp, common/core/messages.hpp, common/net/inbound_command.hpp.
--     Fields keep their names in snake case; a ticker is the list of its characters' codes.
--   Core/Seqlock: common/core/seqlock.hpp, a `Store` run to its end as the engine uses it; Threads has
--     the steps of `Store` and `Load` by one writer and one reader.
--   Extern: what stands outside the repository. UnorderedMap is `ankerl::unordered_dense::map` with
--     the laws of its documentation, Double the arithmetic of `double`, of which no law is asked,
--     Kernel the table of open descriptors; AssocMap and FileTable are tables that meet the laws.
--   Engine/Book, Engine/FlatMap: the price levels of one side, as in common/engine/matching_engine.hpp,
--     with `EraseFromBook` of common/engine/matching_engine.cpp.
--   Engine/Match: the nested loops of `Match`. Fills, Priority, Conservation, Shape and Index say
--     what the loops do to the queue of orders, to volumes, to the levels and to `orderIndex_`.
--   Engine/MatchingEngine: `Rest`, `OnOrderAdd`, `OnOrderCancel`, `UpdateMidPrice` and `MidPrice`. The
--     handler of trades is an argument, a function on any state. Refinement holds the abstract view,
--     one queue of orders per side in the order of price and time.
--   Engine/Router: common/engine/matching_engine_router.hpp.
--   Engine/Instrument: common/engine/instruments.hpp.
--   Engine/User, Engine/UserRegistry: `ApplyFill`, `RefreshUnrealizedPnl` and the queries of
--     common/engine/user.hpp, and common/engine/user_registry.hpp; Snapshot has the rows that
--     `WriteSnapshot` writes.
--   Net/Wire: common/net/wire.hpp by the values of the fields; Net/Wire/Bytes the packed structs as
--     bytes, numbers with the least significant byte first, as on the hosts that the program is
--     built for.
--   Net/Gateway: common/net/gateway.cpp, over what `epoll_wait`, `accept4` and `read` return: the table
--     of connections, `AcceptConnections`, `ReadFrom`, `Dispatch`, `CloseConnection` and the loop of
--     `Run`. Framing is about one connection, Clients about the commands that clients send, Buffers
--     about the room in the buffers. Sockets is `Run` from its first call to its last, with the
--     descriptors that it opens and closes, and the destructor.
--   Net/Descriptors: the open descriptors, over Extern/Kernel, which says what POSIX does.
--   Net/Publisher: `Run` of common/net/market_data_publisher.cpp. The bytes of a union behind a member
--     that is shorter than the union are a parameter. Socket has the constructor and the destructor.
--   Workers/MatchingEngine, Workers/Inventory: the bodies of the threads of common/workers; Pushes
--     lists the calls of `PushBlocking` for a command, in their order over both queues.
--   Workers/Drain: the loops by which a thread drains its queue, as steps that interleave with the
--     producer and with main.
--   Exchange: the pipeline of exchange/main.cpp from the commands to the accounts of the users, to the
--     snapshot and to the datagrams, with queues that are drained. Threads has the threads, their
--     three queues and main as steps in any order: a push or a pop is one step, and so is the
--     settlement of a trade, at any mid price. Service starts from the bytes of the clients.
--
-- Bounds and fuel. A loop of `Match` has as many rounds as there are levels, or orders in the
-- level, and each round of them takes one away or is the last; all other loops recurse on their
-- lists, those of the gateway on what their system calls return. Integers are exact: where an
-- `int64_t` would overflow C++ leaves the behaviour undefined. A `std::size_t` made of a negative
-- id wraps as in C++. Exceptions are `none`, or a flag beside the state that they leave.
--
-- Not modelled: the address and the flags of the gateway's sockets, the calls of `fcntl` and
-- `epoll_ctl`, the registration of the signal handler, logging, the text of the snapshot file, the
-- arena and pool that the engine's vectors allocate from, the tag of `StrongType`, which keeps
-- units apart, and the weak memory under the seqlock and the queues, whose steps follow one
-- another.
pub mod Base
pub mod Core
pub mod Extern
pub mod Engine
pub mod Net
pub mod Workers
pub mod Exchange
