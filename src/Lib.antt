-- ===== src/Lib.antt =====
-- flydragon: a TCP server of one master and several worker processes, of which this library models
-- the start, from main to the loops of master and workers, and what a worker does with its clients.
--
-- The parts, and how they interact. `main` reads the configuration, opens the listening sockets and
-- leaves the rest to a child, the master, which forks four workers and reaps those that exit. A worker
-- starts its threads and epoll and goes into its loop. `flyd_epoll_process_events` waits for events
-- and calls the handler of each connection: `flyd_event_accept` for a listening socket takes a connection from the
-- pool and adds it to the timer queue; `flyd_wait_request_handler` reads from a client, puts packets
-- together and queues a message and a task for each; `flyd_write_request_handler` goes on with a
-- message that the socket could not take as a whole. The tasks run `threadRecvProcFunc` in a thread
-- pool, which checks the CRC, the sequence number and the code of a message and calls a handler; the
-- handlers answer by `msgSend`. Three more threads work on the same object: one sends the queued
-- messages, one recycles connections that were given up, one gives up those that send no heartbeat.
--
-- Which module models what (paths from the repository's root):
--   Comm       _include/flyd_comm.h: constants; Comm.Header: the packet header in network order
--   State      net/flyd_socket.h: flyd_connection_s (Conn), STRUC_MSG_HEADER (Msg, Timer), the members
--              of CSocekt (Server), the constructor; State.Memory: misc/flyd_memory.cc
--   Pool       net/flyd_socket_conn.cc: initconnection, clearconnection, flyd_get_connection,
--              flyd_free_connection, inRecyConnectQueue, ServerRecyConnectionThread (recy_round),
--              flyd_close_connection
--   Timer      net/flyd_socket_time.cc: AddToTimerQueue, GetOverTimeTimer, RemoveFirstTimer,
--              DeleteFromTimerQueue, clearAllFromTimerQueue
--   Heartbeat  net/flyd_socket_time.cc: ServerTimerQueueMonitorThread (monitor_round)
--   Close      net/flyd_socket.cc: zdClosesocketProc
--   Recv       net/flyd_socket_request.cc: recvproc, flyd_wait_request_handler and its two parts,
--              inMsgRecvQueue, tmpoutMsgRecvQueue
--   Send       net/flyd_socket.cc and net/flyd_socket_request.cc: msgSend, sendproc,
--              ServerSendQueueThread (send_round), flyd_write_request_handler, clearMsgSendQueue
--   Epoll      net/flyd_socket.cc: flyd_epoll_oper_event
--   Accept     net/flyd_socket_accept.cc: flyd_event_accept
--   Events     net/flyd_socket.cc: flyd_epoll_process_events
--   Crc        misc/flyd_crc32.cc: Reflect, Init_CRC32_Table, Get_CRC
--   Logic      logic/flyd_logic.cc, logic/flyd_logic_comm.h: threadRecvProcFunc, the command table and
--              its handlers, procPingTimeOutChecking
--   Config     app/flyd_config.cc, app/flyd_string.cc: Load, GetString, GetIntDefault, Trim
--   Startup    net/flyd_socket.cc: Initialize, ReadConf, flyd_open_listening_sockets, flyd_epoll_init,
--              Shutdown_subproc; Startup.Threads: Initialize_subproc
--   Process    proc/flyd_process.cc: flyd_daemon; Process.Master: flyd_master_process_cycle,
--              flyd_start_worker_processes, flyd_spawn_process; Process.Worker: flyd_worker_process_cycle
--   Signal     signal/flyd_signal.cc: Init, AddSingal, SignalHandler, flyd_process_get_status
--   Main       app/main.cc: main
--   Title      app/flyd_setproctitle.cc, which is not built at present: flyd_init_setproctitle,
--              flyd_setproctitle
--   Inet       net/flyd_socket_inet.cc: flyd_sock_ntop
--   Sound      the pool, the timer queue, the descriptors and the checks of the clients under all that a
--              worker does
--   Session    the receiving half, the tasks and the sending half together
--   Base       shared names, lists, words and bits; Tests and Recv.Tests: concrete inputs
--
-- How the state corresponds. A `Server` is the CSocekt object of a worker with the globals that it
-- reads, and every operation is a function from a Server to a Server; a pointer to a connection is
-- its number, in the order of allocation; a message buffer has one owner at a time and is its
-- contents; the std::multimap is a list in key order. An operation that holds a lock to its end is
-- one step; threadRecvProcFunc gives its lock back in the middle, and is two (pop_message, process),
-- and thread_recv_proc_func is both with nothing between. That a message is not taken from the queue
-- while another is taken or put there is assumed: the two sides lock different mutexes, and the one
-- that takes unlocks its own twice. What the kernel answers, the time and what an allocator leaves in a block are
-- arguments. A process (Process, Program) is what the kernel holds for it, its globals and its
-- objects; `fork` is an argument that says whether the process looked at is the parent or the
-- child. LOG_FATAL ends in `abort`, as logging/Logging.cc has it. Machine words wrap: AtomicInt32
-- and size_t counters are bit patterns, iCurrsequence has 64 bits.
--
-- Fuel. The scans that start over after each removal (recy_scan, delete_scan) have the length of the
-- list as fuel, since each takes one entry away; the loop of the monitor (collect) the length of the
-- queue and one more, since a check that was due is put back for later; the loop over the lines of a
-- file (load_lines) the number of bytes, since each line takes one or more; `%d` (decimal) the ten
-- digits that an int can have; a string of the environment (string_at) the size counted for all.
--
-- Not modelled: the overflow of the int `m_iWaitTime * 3 + 10`, which is undefined, for waiting times
-- above 715827879 seconds; the text of the log; logging/, which is a copy of another library, and of which the
-- thread pool is a count of tasks that are still to run and the number of its threads; the
-- singletons of _include/flyd_singleton.h, of each of which the state has one; and headers without
-- code (_include/flyd_threadpoll.h, _include/flyd_func.h, _include/flyd_string.h).
pub mod Accept
pub mod Base
pub mod Close
pub mod Comm
pub mod Config
pub mod Crc
pub mod Epoll
pub mod Events
pub mod Heartbeat
pub mod Inet
pub mod Logic
pub mod Main
pub mod Pool
pub mod Process
pub mod Recv
pub mod Send
pub mod Session
pub mod Signal
pub mod Sound
pub mod Startup
pub mod State
pub mod Tests
pub mod Timer
pub mod Title
