-- ===== src/Lib.antt =====
-- A model of the core of this repository: an IOCP network library (IOCPNetLib), the containers it
-- stands on (Utils), the chat server (ChatServer), the login server (LoginServer) and the monitor
-- server (MonitorServer), with what makes each part correct.
--
-- The parts and their files. Prelude and its children hold what the others share: numbers and
-- tests, lists measured by native numbers, byte memory with memcpy (Prelude.Memory) and the bit
-- operations (Prelude.Bits).
--
-- Ring is Utils/RingBuffer.h and .cpp: the byte ring of a session. GetUseSize, GetFreeSize,
-- DirectEnqueueSize, DirectDequeueSize, Enqueue, Dequeue, Peek, MoveFront, MoveRear and
-- ClearBuffer are functions of the same names; pointers are offsets into the allocation.
-- Ring.Contents says what a ring holds, Ring.Enqueue, Ring.Dequeue and Ring.Posted what the
-- operations do to it.
--
-- Encoder is Utils/SimpleEncoder.h: SetBuffers, SetKeys, Encode, Decode and CalculateChecksum
-- over one memory, with the array temp of 1400 bytes as a bound whose violation is a fault.
--
-- Packet is class SerializeBuffer of IOCPNetLib/Packet.h and Packet.cpp: the operators << and >>
-- for each type, GetData, PutData, MoveFront, MoveRear, Clear and Expand. A value is its bit
-- pattern.
--
-- Frame is the packet format of IOCPNetLib/NetLibraryProtocol.h with what
-- NetLib_Server::SendPacket does to a packet (Frame, Frame.Send) and the receive loop of
-- NetLib_Server::WorkerThread (Frame.Receive). Frame.Wire is the format as a list of bytes,
-- Frame.Delivery one round of the loop, Frame.Stream the whole loop, Frame.Refusals the rounds
-- that end a session.
--
-- Session is IOCPNetLib/Session.h and the session handling of IOCPNetLib/NetLib_Server.cpp:
-- handles, the count of users, ReleaseSession, Connect, the reference counts of queued packets
-- (Session), and FindSession, ReturnSession, Disconnect, SendPacket, SendPost, TrySendPost and
-- RecvPost (Session.Server). Session.Counting takes the interlocked operations on one session's
-- count as the atomic steps of many threads, in any order. Session.Worker is the branches of
-- WorkerThread for the completions of a session (on_enter, on_received, on_send_post, on_sent,
-- on_leave), Session.Accept is AcceptThread, MonitorThread and the pool of places,
-- Session.Multicast is SendPacketMulticast, Session.Released follows a release to the pool of
-- places. Session.Life puts them together as the steps at one place of m_sessions; Session.Kept,
-- Session.AtPlace, Session.Received, Session.Living and Session.Places follow the count through
-- them. Session.Elsewhere, Session.Referenced and Session.Balance follow the references of a
-- packet through a multicast.
--
-- Sector is ChatServer/SectorMap.h and SectorMap.cpp: the neighbours of a sector, the sectors
-- that a move brings into view and out of it, and the order of the locks.
--
-- Content is the loop of IOCPNetLib/NetLib_Content.cpp over a session's ring of payloads:
-- Content.Handing is how the receive loop fills that ring, Content.Queued how the loop empties
-- it. Content.Messages is the message queue of a content, its table of sessions and
-- NetLib_Server::Move_Content; Content.Handoff and Content.Moved follow a session from one
-- content to another.
--
-- Chat is ChatServer/main.cpp with Player.h and Define.h: the tables of waiting sessions,
-- players, accounts and blacklisted addresses, and the handlers over them. Chat has OnClientJoin,
-- OnClientLeave and OnConnectionRequest, Chat.Login and Chat.Requests the cases of Content_Proc,
-- Chat.Timers what ContentThread does every second. A handler returns what it asks of the network
-- library (Disconnect, SendPacket, SendPacketMulticast) and the new tables. Hash maps are lists
-- of keys and values (Prelude.Assoc). The answer of Redis, wcscpy_s (which may end the process),
-- rand, the time and the old contents of local variables and pooled objects are a record
-- (Outside) that every handler takes. Chat.Invariant says how the tables agree, Chat.Runs that
-- every run keeps it so; Chat.Multicast, with Chat.Grid, who hears a message.
--
-- Pool is Utils/TLSObjectPool.h: the chains of every thread, and the shared sets of full chunks.
-- An object is its address; new gives addresses that no object has. Pool.Sound counts where every
-- object is while threads allocate and free in any order.
--
-- Stack is Utils/LockFreeStack.h: Push and Pop as sequences of single accesses to the shared
-- memory, by any number of threads in any order (step, move), with the count that SetCount puts
-- into the upper 17 bits of a pointer. Stack.Invariant says what holds between two accesses,
-- Stack.Threads, Stack.Steps and Stack.Ends that each access keeps it, Stack.Moves what it does
-- to the values on the stack. The nodes come from a pool that gives no node twice (Pool.Sound).
--
-- Queue is Utils/LockFreeQueue.h: Enqueue and Dequeue, each run by one thread without another
-- between, on a queue that other threads may have left with its tail behind the last node.
-- Queue.Chains is about the linked nodes, Queue.Refined, Queue.Calls and Queue.Taking about the
-- values that they hold.
--
-- Login is LoginServer/main.cpp with the constants of LoginServer/Define.h: its tables
-- (LoginServer), the handlers of the network library (on_client_join, on_client_leave,
-- on_connection_request, on_recv), the login (req_login) and the rounds of its timers
-- (content_round). Login.Logins is about the logins of one session, Login.Handoff about the way
-- from the login server through Redis to the chat server.
--
-- Monitor is MonitorServer/main.cpp with Client.h, MonitorTool.h and MonitorData.h beside it: the
-- tables (MonitorServer), joining, leaving and the messages of the content thread;
-- Monitor.Requests is OnRecv and Content_Proc, with the logins of servers and tools and the
-- updates. Monitor.Samples is the collection of samples. Monitor.Owners, Monitor.Steps and
-- Monitor.Runs are about the session that reports for a server.
--
-- Parser is Utils/Parser.h: the configuration files, as lists of characters, with the arrays for
-- keys and values.
--
-- How they interact: what WSARecv puts into the free room of a ring (Session.Posting) is taken
-- over by MoveRear (Ring.Posted), cut into frames by the receive loop (Frame.Receive) and handed
-- to the application; what the application sends is framed (Frame.Send), queued in the session
-- and posted (Session.Posting).
--
-- Bounds. Memory is a function from offsets to bytes, so a write past an array is seen, not lost:
-- the definitions return a fault (encode, decode, take_frame) or a theorem speaks of the bytes
-- behind the allocation. Integers of the source that wrap are taken modulo their power of two,
-- except the counters that are set back every second or with every packet (curr_tps of an
-- address, tps_req_chat and tps_req_sector_move of a player, recv_post_cnt) and cumulative_recv
-- of a session in the receive loop, which are followed only below their limits; the sizes of a
-- ring stay below its allocation. The receive loop and the loop over a content's ring run on
-- fuel; one more than the number of packets in the ring is enough, since every round but the last
-- takes a packet off; one more than the number of bytes is always enough (Frame.Ending,
-- Content.Ending). The loop of the lock-free queue's Enqueue takes one round more than the nodes
-- that its tail lies behind (Queue.Calls), that of Dequeue at most two (Queue.Taking).
--
-- The steps of the lock-free stack are followed for at most 131071 pushes, since the count of a
-- word has 17 bits: after that a count comes up again.
--
-- Not modelled: the Windows calls (sockets, completion ports, threads, timers), which appear as
-- events that the code emits or as a Boolean that tells whether a call succeeds; logging,
-- profiling, crash dumps, the database and Redis connections; the interleavings of the lock-free
-- queue's calls, and the queues inside a session and a content, in whose place stand lists; the
-- rounds of a content's Update by time; a call of Move_Content out of OnRecv in the loop over a
-- content's ring, where IsMoving would change under the loop; frees of objects that are not in
-- use, as Packet::NetFree makes them, which tie a chain of nodes into a ring; the pools
-- ObjectPool and LockFreePool, which no program uses; the client library; of the monitor server,
-- the rows for the database, and its blacklist beyond insertions; of the three servers, their
-- start and their console output. The handlers of each of these servers run one after another,
-- though the program runs them on several threads with a lock on each table.
pub mod Prelude
pub mod Ring
pub mod Encoder
pub mod Packet
pub mod Frame
pub mod Session
pub mod Sector
pub mod Parser
pub mod Content
pub mod Pool
pub mod Stack
pub mod Queue
pub mod Chat
pub mod Login
pub mod Monitor
