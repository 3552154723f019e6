-- ===== src/Lib.antt =====
-- The server core library: a model of its locks, memory pools, thread pool, UDP server and the
-- start, buffers, clients and loops of its TCP server, with the theorems that the code rests on.
--
-- Parts, and how they use each other. Paths are from the repository's root.
--
-- Common: numbers, Boolean tests, lists over the native numbers, and weights of a list of threads.
--
-- Lock: core/lock/Spinlock.h and Spinlock.cpp. `Spinlock` has the two atomic fields. `Lock`,
-- `Unlock`, `ReadLock` and `ReadUnlock` are cut into their atomic accesses (`exchange_lock`,
-- `drain_readers`, `unlock`, `test_lock`, `count_reader`, `read_unlock`), `Pc` says where a thread
-- stands between two of them, and `Step` lets any thread make its next access: every interleaving
-- is a path of `Reach`. Lock/Sections has data that threads change inside `Lock` alone, one access
-- at a time; Lock/Sections/Atomic is why all other parts take what stands between the two ends of
-- an `ExclusiveLockHolder` as one step.
--
-- ThreadPool: core/thread_manager/ThreadPool.h and ThreadPool.cpp. `enqueue`, `take_task` and
-- `stop_pool` are the three sections under the pool's lock; `work` is one turn of a worker's loop.
-- The system records which tasks were accepted, started and finished.
--
-- MemoryPool: core/memory_pool/include. Memory is a function from an address to the pointer stored
-- there. Storage is segregated_storage.hpp, operation by operation, with `none` for a null
-- dereference or the failed assert; Pool is pool.hpp over it, and Pool/Race cuts its `Malloc` at
-- the test. `::malloc` is an argument, of which the theorems assume what the C library says
-- (`IsFresh`). The loop of `segregate` runs on fuel: the size of the block, of which each round
-- takes at least one byte. The loop of `PurgeMemory` takes its fuel as an argument: each round
-- frees a block, so one more than their number is enough. ObjectPool is object_pool.hpp: the pools
-- of all threads side by side in that memory, where a thread's calls are found by its number
-- (`malloc`, `free`, `construct`, `destroy`, `preallocate`, `purge_memory`); Histories says what
-- threads may do with it. Allocator is `FastPoolAllocator` of allocator.hpp; SingletonPool is
-- singleton_pool.hpp, a thread's pool without a way back for its chunks. ChunkPool is what a
-- client relies on in a pool, `Malloc` and `Free` with their laws, which Pool/Contract fills with
-- one pool and ObjectPool/Contract with the pools of all threads; its clients in Udp and Tcp take
-- it as a parameter.
--
-- Udp: core/udp_server/src. Endpoint is endpoint.hpp; Packet is packet.hpp and packet.cpp, with
-- the datagram that socket.hpp builds of a packet, Packet/Owners who shares its data, and
-- Packet/Pooled the packets with `data_pool_`; SessionMap is `std::map` as the manager uses it;
-- SessionManager is session_manager.hpp and session_manager.cpp with session.hpp and the calls of
-- socket.cpp: `iocp_task` is one round of an I/O thread's loop on one completion, `sweep` and
-- `reap` are the two loops of a round of the heartbeat thread, and its ACK branch is also cut at
-- its locks (`ack_find`, `ack_erase`, `ack_insert`), as its data branch is in SessionManager/Late
-- (`resume_data`, after the look-up); SessionManager/Pooled is the manager with `session_pool_`;
-- SessionManager/Threads has the receive buffers by address, to which the detached threads of the
-- packet handler refer (`packet_thread` is their body), and SessionManager/Delivery follows a
-- packet from its constructor through such a buffer to the handler of the other side. Socket has
-- the constructors of socket.cpp, and Server is server.hpp and server.cpp, which forward to the
-- manager. Elsewhere the memory that a pool hands out is an argument, and the parts meet in the
-- address only.
--
-- Tcp: core/server. Buffer is Buffer.h, with `none` for an access outside the memory and for a
-- lock that is held; Client is Client.cpp, and Client/Delivery follows packets from `Send` to the
-- handler of the other side, each of them received whole; ClientManager is ClientManager.cpp, with
-- a system of the clients that wait for their accept, ClientManager/Pooled the manager with
-- `client_pool_`, and ClientManager/Counter its calls cut at their accesses of `current_`; Server
-- is the loops of Server.cpp: `iocp_work` is one round of an I/O thread on one completion,
-- `run_round` one of the accept loop; Server/Start is what comes before: the setters, and `Init`
-- with its calls of Winsock and the thread pool on which it puts the loops of the I/O threads.
-- Contexts are known by their client and type, and `Step` lets any outstanding request complete
-- with any result.
--
-- Integers: `long` and `unsigned int` are 32 bits wide, `short` 16, pointers and `size_t` 64; a
-- negative value is its bit pattern, and increments wrap round. `UWORD` is taken to be 16 bits
-- wide.
--
-- Not modelled: the calls of Winsock and of the completion port, except as completions and as
-- answers that are arguments; what handlers do, and the references of the thread that calls the
-- accept handler; the programs that test and measure the library.

pub mod Common
pub mod Lock
pub mod ThreadPool
pub mod MemoryPool
pub mod Udp
pub mod Tcp
