-- ===== src/Lib.antt =====
-- MemInfo lends idle RAM over a LAN: a daemon serves pages of its memory to clients over TCP, and a
-- client spills to such daemons behind a local cache. This library models the memory daemon from the
-- page allocator up to the framing of a connection, the client with its cache, its remote blocks and
-- its heap over page faults, the backends that serve these faults on three systems, the hook that
-- gives the heap to a program that knows nothing of it, the daemon that serves CUDA calls and its
-- client, and the daemon that knows the hosts on the LAN.
--
-- Memory: the daemon memoryd
--   Memory/Raw.antt       raw memory as a function from offsets to bytes, memset and memcpy on it,
--                         and the exceptions that memoryd throws.
--   Memory/Slab.antt      memoryd/src/slab_allocator.cpp. The constructor is create, the loops of
--                         allocate_pages and free_pages are take_pages and release; write_page and
--                         read_page are the accesses to one page.
--   Memory/Tracker.antt   memoryd/src/page_tracker.cpp, over the slab: handles, their pages and their
--                         owners. write_loop and read_loop are the loops of write and read, sweep
--                         that of free_all_for_owner.
--   Memory/Protocol.antt  memoryd/src/memory_protocol.cpp, over the tracker: one request and its
--                         response. dispatch is the switch, status_of the catch clauses.
--   Memory/Session.antt   memoryd/src/client_session.cpp, over the protocol: the byte stream of one
--                         connection. process_loop is the loop of process_buffer.
-- Client: the library memclient
--   Client/Lru.antt       memclient/src/lru_cache.cpp: blocks in order of use, under a byte limit.
--   Client/Arena.antt     memclient/src/heap_arena.cpp: the allocator over a fixed region of memory.
--   Client/Act.antt       methods that may throw, with the state beside the exception.
--   Client/Peers.antt     memclient/src/client_api.cpp, the list of peers: ensure_peer,
--                         connect_to_peers, select_best_peer.
--   Client/Link.antt      the same file: requests to a peer and the wait for their answers. The peers
--                         and the network are the parameter World.
--   Client/Requests.antt  the same file: the answers of one peer (on_peer_read, of which on_data and
--                         on_drop are the branches) and the requests that wait for them.
--   Client/Remote.antt    the same file: allocate_remote and free_remote. try_single and try_stripes
--                         are its two tries.
--   Client/Transfer.antt  the same file: write_remote and read_remote. write_pass and read_pass are
--                         the inner loops, write_rounds and read_rounds the outer ones.
--   Client/Memory.antt    the same file: allocate, free, read, write, and the moves between the cache
--                         and the peers (evict_if_needed, load_to_local).
--   Client/Hosted.antt    the client over memory daemons: World filled by Memory/Protocol.antt.
--   Client/Heap.antt      memclient/src/remote_heap.cpp: pages that are fetched on a fault. The client
--                         and the page-fault backend are the parameter Backing, whose client part is
--                         what Client/Memory.antt does for one handle.
-- Platform: the layer under the heap and the daemons
--   Platform/Pages.antt   platform/src/windows/page_fault_win.cpp, the part that the three systems
--                         share: regions, their pages, and for_each_page over a range.
--   Platform/Windows.antt  the same file: the methods of the backend and VectoredHandler, over the
--                         calls of VirtualAlloc, VirtualProtect and VirtualFree. clear_dirty and
--                         promote are their two steps, one after the other.
--   Platform/Linux.antt   platform/src/linux/page_fault_linux.cpp, over userfaultfd; on_page_fault is
--                         one message of fault_handler_thread.
--   Platform/Mac.antt     platform/src/macos/page_fault_mac.cpp, over mprotect: a method whose text is
--                         that of the Windows file is that of Platform/Windows.antt.
--   Platform/Ipc.antt     platform/src/linux/local_ipc_linux.cpp: send_request and serve_client over a
--                         stream that moves as many bytes at a time as it likes.
-- Hook: the library that takes over malloc and its kin
--   Hook.antt             hook/meminfo_hook.cpp: the hooked functions, over Client/Arena.antt.
--   Hook/Slots.antt       the same file: the slots of the C runtimes and scan_and_attach.
-- Gpu: the daemon gpud
--   Gpu/Protocol.antt     gpud/src/gpu_protocol.cpp over the interface of an executor.
--   Gpu/Session.antt      gpud/src/gpu_session.cpp: the byte stream of one connection, with the test
--                         of uv_is_closing that the session of memoryd lacks.
--   Gpu/Stub.antt         gpud/src/cuda_executor_stub.cpp, an executor over memory of the process.
--   Gpu/Client.antt       gpud/src/gpu_client.cpp: the calls, over a connection that is a parameter.
--                         Gpu/Client/Hosted.antt fills it by a session of gpud.
-- Discovery: the daemon discoveryd
--   Discovery/Peers.antt  discoveryd/src/peer_table.cpp: the hosts that announced themselves.
--   Discovery/Announce.antt  discoveryd/src/announcer.cpp and discoveryd/src/listener.cpp: one
--                         announcement, and what a host that hears it enters in its peer table.
-- Control.antt            the control protocol: memoryd/src/memory_control.cpp,
--                         discoveryd/src/control_socket.cpp, discoveryd/src/pool_probe.cpp,
--                         discoveryd/src/discovery_daemon.cpp and the client's query_discovery.
-- Common/Crc.antt is common/src/crc32c.cpp, the checksum of the protocol, in its portable branch.
-- Prelude.antt and its children hold the native numbers, lists and association lists that all share.
--
-- An operation is a function from the state to the new state and its result; an exception is a
-- value of the result type. Where a method holds the mutex of its object to the end it is one step;
-- the methods of the page-fault backends do not, so their steps are definitions that may
-- interleave, and a whole operation is what one thread runs. The daemon runs its sessions on one
-- libuv loop, so operations of the tracker do not interleave. The slab's buffer is a total
-- function: an access out of bounds would be visible, since its address is not tested.
--
-- Integers are natural numbers. Where the code can wrap, the wrap is written out: next_handle of the
-- tracker, the addresses of the arena. A theorem that needs that next_handle does not wrap says so.
-- The size of a page in Platform is a power of two, so that the masks of the code are written as
-- quotients and remainders. The counter of resident pages is not wrapped upward, since it counts pages
-- that are there.
--
-- Fuel: write_loop and read_loop get the size of the transfer, and each round moves a byte or more;
-- process_loop gets the length of the buffer, and each round takes four bytes or more; trim gets the
-- length of the list, and each round takes a block; read_loop of the client's answers gets the length
-- of the buffer, as process_loop does. The outer loops of a transfer repeat a round that moves nothing
-- for ever; they get one round more than bytes, `none` stands for a run that does not end, and that
-- no operation of the client gives `none` is a theorem, as it is for evict_loop and evict_all. The
-- rounds of enforce_budget are an argument. The theorems on write, read, on_data and put are
-- about the results of these functions themselves, so the fuel is shown to be enough.
--
-- Parameters: the FlatBuffers reader and its length prefix (decode, prefix_of) belong to a library
-- that the repository only calls. The memory that the slab reserves is an argument of create, and
-- the malloc of the stub executor is one of create_stub. The C runtime and the building of the heap
-- are parameters of the hook (Crt, build), the calls of the systems are records of operations over
-- the state of the kernel (VirtualMemory, Userfault, Mprotect), and what read and write move is an
-- argument in Platform/Ipc.antt. Where a theorem needs that such a call does what its manual says,
-- a record of laws is a hypothesis.
--
-- The mutexes of MemoryClient are released between its steps, and other threads of the same client
-- may run there; the model is of one thread that calls its operations, with the network thread and
-- the discovery thread in the parameter World.
--
-- Not modelled: the sockets of the client, of discovery and of the GPU client, and the threads that
-- run them; the polling of wait_for_connected_peer and of the pool probe's thread; the set-up of the
-- page-fault backends and the loop of the Linux fault thread; the accept loops of local IPC and its
-- named pipes on Windows; DllMain of the hook, its report and its launcher; the monitors of memory;
-- the executor over the CUDA runtime; the separate program under windows-lan-sharing; logging,
-- configuration and start-up code.
mod Prelude
pub mod Common
pub mod Memory
pub mod Client
pub mod Control
pub mod Gpu
pub mod Discovery
pub mod Hook
pub mod Platform
