-- ===== src/Lib.antt =====
-- A verification library for eROIL, the label-exchange library of this repository (eROIL/).
--
-- The program. Nodes exchange labelled messages. A client opens send and receive handles for labels.
-- Each node broadcasts which labels it sends and receives; a node that hears of a receiver for one of
-- its labels makes it a subscriber. A send takes a snapshot of the subscribers of its label and hands it
-- to two workers, one for the nodes of the same machine, over shared memory, and one for the others,
-- over TCP. The worker that completes last writes the status block of the send. A message that arrives
-- is copied into a slot of every open receive handle of its label.
--
-- The files, each with the code that it models (paths from the repository's root):
--   Types       eROIL/src/types/const_types.h, handles.h, iosb.h, label_io_types.h: constants and data
--   Routes      eROIL/src/router/route_table.{h,cpp}: Send and Recv hold the operations on the two kinds of
--               routes, Labels the lists that are broadcast
--   Transports  eROIL/src/router/transport_registry.{h,cpp}
--   Router      eROIL/src/router/router.{h,cpp}: handles, routes and transports under one lock; SendJobs
--               is build_send_job, Distribution is distribute_recvd_label, Received is what it leaves
--               for a client to read, Histories is what both sides go through
--   Jobs        eROIL/src/types/send_io_types.h and the send half of eROIL/src/comm/write_iosb.h; Senders
--               is the loop of eROIL/src/workers/send_worker.h, as a step relation on two workers
--   Delivery    the receive half of eROIL/src/comm/write_iosb.h, the loop body of distribute_recvd_label,
--               and the operations on a receive handle in eROIL/src/root.cpp
--   Address     eROIL/src/address/address.{h,cpp}
--   Manager     eROIL/src/manager/manager.{h,cpp}: opening, closing and broadcasts; SendLabel is send_label
--   Wire        LabelHeader (label_io_types.h) as bytes
--   Socket      eROIL/src/socket: socket_result.h, tcp_socket.h and linux/: the state of a socket, the client and
--               the server; Socket/Windows is win/
--   Comms       eROIL/src/comm/connection_manager.{h,cpp}: the hand-over of a send, and in Links the
--               handshake, the pings and the rounds of the monitor; Opener is spawn_local_shm_opener
--   Workers     eROIL/src/workers: Plans is send_plan.h, ShmRecv and SocketRecv are the receive workers;
--               Draining and Stream are what arrives through them, EndToEnd a label from node to node
--   Messages    get_msg_* of eROIL/src/root.cpp on the status blocks of eROIL/src/types/iosb.h
--   EventLog    eROIL/src/log/evtlog.{h,cpp}
--   Shm         eROIL/src/shm: Layout is shm_header.h; Blocks is the set-up of a block; send and recv are in Shm
--   Shm/Mapping eROIL/src/shm/shm.{h,cpp}, linux/linux_shm.cpp and win/win_shm.cpp: the block that is mapped
--   Multicast   eROIL/src/socket/udp_multicast.h and its two implementations
--   Events      eROIL/src/events: semaphores and named semaphores, on Linux and on Windows
--   Api         eROIL/src/root.cpp, the start and the calls on handles; Nae is eROIL/src/api/eroil_c.cpp, Cpp
--               eROIL/src/api/eroil_cpp.cpp, RoilIds is in eROIL/src/rtos.h
--   Memory      memcpy on byte-addressed memory
--   Prelude     helpers: tests on numbers, vectors, maps, positions on a ring
--
-- Functions keep the names of the code. State is passed explicitly; a method is a function from the
-- state before to the state after and the result. Each method of the router is one step, as the code
-- holds its lock; distribute_recvd_label gives the lock up before it writes to the subscribers, and
-- the model runs it without another call in between. The checks of DB_ASSERT (eROIL/src/assertion.h)
-- are there in builds without NDEBUG only: build_send_job_in is the call in either build,
-- build_send_job the one without, which the theorems on a whole send are about; what the send buffer
-- asserts is checked before. The address book is kept from call to call, so that the old one is an
-- argument. A signed 32-bit id is its bit pattern, a counter wraps at its width, a pointer is its
-- address with 0 for null. A map is a list of entries whose order stands for the order of iteration.
--
-- Shared memory. A call of send or recv is a run without another node in between. The headers of records
-- are a store by offset and payloads are byte memory; the chain of records from the tail to the head is
-- shown to be disjoint, so that the two views agree. The allocation loop has the code's 100 rounds, and
-- two are shown to be enough. The search loop of recv has one round for each byte in use, and one more,
-- which is shown to be enough. The theorems on send and recv ask for counters a few laps below 2 ^ 64.
--
-- Several senders at one block: a step is one round of the allocation loop of any of them, with any head
-- that it loaded before, or the receiver's taking back of the oldest region (Shm/Contention).
--
-- The workers. A step of a worker begins a send, which succeeds or fails, or completes it; every
-- interleaving of the two workers is a path of steps. The compare-and-exchange loop of complete_one is
-- the atomic decrement that it comes to.
--
-- The sockets. What the system gives to the calls of a loop is a function of the number of the call and
-- of the size asked for; the theorems name what they rely on: no call moves more than it is asked to,
-- and, where a transfer has to get through, a call moves at least a byte or is interrupted, at most k
-- times in a row. A loop has one round for each call; for size bytes size * (k + 1) + k + 1 are shown to
-- be enough. What a peer sends on a connection is a stream of bytes that arrives in order.
--
-- The links. A socket object is an address in a store; a new one must have a new address. A receive worker
-- is its entry, with the socket that it was made for. A function that waits in a call that has not
-- returned gives none.
--
-- The two systems. Linux and Windows have error numbers of their own; a theorem that compares them maps
-- the one to the other, and asks that a call of Windows gives what the call of Linux gives. The retry
-- loops of the semaphores run on fuel, one round for each call; a call that is not interrupted after k
-- interruptions ends the loop, and k + 1 rounds are shown to be enough.
--
-- Not modelled: threads, clocks and files, whose outcomes are arguments; reading the configuration, the
-- socket context of Windows and the affinity of threads; what several senders write into one block at
-- the same time, beyond the regions that they are given; several threads at the event log; the texts of
-- error codes; the functions of the C++ interface that only cast, and the calls for the time and the
-- event log. Products in an int that do not fit are taken to wrap.
pub mod Prelude
pub mod Types
pub mod Routes
pub mod Transports
pub mod Jobs
pub mod Memory
pub mod Delivery
pub mod Router
pub mod Address
pub mod Shm
pub mod Socket
pub mod Wire
pub mod Comms
pub mod Workers
pub mod Messages
pub mod EventLog
pub mod Manager
pub mod Events
pub mod Api
pub mod Multicast
