-- ===== src/Lib.antt =====
-- A node of a peer-to-peer task runner, New_socket_proj. Nodes find one another by UDP broadcasts, ask
-- one another for their load, and send a C file to the least loaded node, which compiles it, runs it and
-- streams the output back over TCP.
--
-- Wire (common.h): message types, the 8-byte header and the payload structs as byte lists. `htonl` and
-- `htons` with the struct's memory layout are `be32` and `be16`.
-- NetUtils (net_utils.c): send_all, recv_all, send_msg, recv_msg. A Socket holds the bytes that will
-- arrive, the bytes that were sent, and the outcome of each coming system call; a call moves at most the
-- number of bytes that its outcome says, or fails with an errno, and with no outcome left it blocks. The
-- loops recur on the outcomes, one for each call, so they need no fuel. malloc is a parameter.
-- PeerList (peer_list.c): the 64 slots as a list; each function takes the lock for its whole run and is
-- one step. `strcmp` compares byte strings without their NUL; `time(NULL)` is an argument.
-- Directory (peer_list.h): what a client of the table sees, as a quotient of lists of entries: two lists
-- are the same directory if every test of entries holds equally often in both.
-- Listing (peer_list.c): the lines of peer_list_print; how printf writes a float is a parameter.
-- Float, LoadMonitor (load_monitor.c): the atomic counters modulo 2^32 and the load figure. A float is
-- its 32-bit pattern; the machine's arithmetic is the parameter FloatOps, and what is used of IEEE
-- comparison is the hypothesis IsOrdered. What /proc/loadavg and sysconf give is an argument.
-- Worker (worker.c): stream_and_wait, compile_and_stream, handle_connection. A child process is its
-- output, the outcomes of the reads, and its wait status. gcc and running a program are parameters, as
-- are a failing fopen and a failing first pipe; fork and the second pipe, which the code does not check,
-- are taken to succeed there. Both temporary files are one cell each, since their paths depend on the process
-- id alone.
-- TempFiles (worker.c): compile_and_stream by threads that share the two files, one system call at a time
-- in any order; a list of thread numbers says whose turn it is. A run of gcc is one turn. An open file is an
-- inode, which keeps taking a thread's bytes when another removes its name. Six turns are enough for a task.
-- Processes (worker.c): the pipes and the children of any number of threads: pipe, fork, close, the reads up to
-- the pipe's end, kill and waitpid as steps on a process table, with the behaviour that POSIX gives them. A
-- child has the write ends that the worker has when it is forked, and what a child forks has those of the child.
-- A fork may fail if a parameter says so.
-- Dispatcher (dispatcher.c): query_peer_load, the choice in dispatch, send_task_file, receive_output.
-- What a query brings back is an argument. The port that an unanswered query leaves uninitialised is
-- `none`. receive_output runs on fuel, one more than the length of the stream, which is enough since each
-- message takes 8 bytes at least.
-- Discovery (discovery.c): the HELLO and BYE datagrams and one round of listener_thread.
-- Responder (main.c): one round of load_responder_thread.
-- Port (discovery.c, main.c): the loops of listener_thread and load_responder_thread over what each recvfrom
-- gives, and UDP port 9999, which both bind. To which of the two sockets the kernel gives a unicast datagram is
-- a parameter. A dispatcher's load queries to such nodes; an answer comes before the timeout.
-- Acceptor (worker.c): accept_loop and its connection threads as a step relation over the counters, with a
-- step for each path through compile_and_stream; malloc and pthread_create are taken to succeed there. Its child
-- Connections follows all open descriptors of the process: the connections, the FILE and the pipes that their
-- threads use, and what other threads have; there a pthread_create may fail, and the task count goes freely.
-- Shell (main.c): run_repl and read_file. stdin is a byte list; fopen and malloc are parameters; what each
-- round finds in g_running, and whether a dispatch in it returns, is a list with one entry for each round, so a
-- list longer than stdin is enough.
-- LocalIp (net_utils.c): get_local_ip. The list that getifaddrs gives is an argument.
-- Descriptors (net_utils.c): the socket makers, as system calls on a table of open descriptors; what the
-- kernel answers to each call is an argument, and so is the number of a new descriptor. Its child Dispatch
-- (dispatcher.c) is the sockets of query_peer_load and dispatch: made, used, closed.
-- Startup (main.c, discovery.c): the argument loop, and what main's own calls set up, up to the end of
-- discovery_start; what its threads do from then on is not part of that state. atoi is that
-- of the C library of Linux, which takes numbers beyond a long to the nearest long.
-- Lifetime (main.c, discovery.c): main as a whole, from its arguments to discovery_send_bye; what signals do
-- to g_running is left open, round by round, and main can wait for good in a dispatch.
-- Presence (discovery.c): the peer table over time, with the reaper and any calls of the other threads
-- between. Time goes in seconds, and the reaper wakes at most `late` seconds after its sleep.
-- Heartbeat (discovery.c): the announcer of one node beside the Presence of another. HELLOs may be lost; one
-- that is not arrives in the second in which it is sent.
-- Primes (web_upload_proj.c): a sample program, which prints primes; an overflow of int is an answer of its
-- own. The test's fuel is the number itself, which its loop cannot use up; the loop of main runs on rounds,
-- of which 7919 are enough for its 1000 primes.
-- Product (program.c): a sample program, which multiplies two matrices with loops over their indices.
-- Session: the dispatcher's and the worker's ends of one task put together.
--
-- Not modelled: signal delivery; a failing second pipe, after which the worker goes on with undefined
-- descriptors; the web demo in web/, which is no part of the node. What is printed is left out but for task
-- output, the lines of peer_list_print and those of the sample programs.
pub mod Prelude
pub mod Wire
pub mod NetUtils
pub mod PeerList
pub mod Float
pub mod LoadMonitor
pub mod Worker
pub mod Acceptor
pub mod Dispatcher
pub mod Session
pub mod Discovery
pub mod Responder
pub mod LocalIp
pub mod Descriptors
pub mod TempFiles
pub mod Processes
pub mod Startup
pub mod Lifetime
pub mod Port
pub mod Presence
pub mod Heartbeat
pub mod Directory
pub mod Listing
pub mod Primes
pub mod Product
pub mod Shell
