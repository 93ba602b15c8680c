-- ===== src/Lib.antt =====
-- twnl: a multi-threaded TCP library on the reactor pattern, in C++ (twnl/). An EventLoop polls
-- descriptors through a Poller and runs the callbacks of their Channels; the PollPoller keeps an
-- array for ::poll and a map from descriptors to channels; a Connector opens outgoing connections
-- with growing pauses; a TcpConnection owns one channel, an input Buffer and an output Buffer. A
-- TcpServer takes connections from its Acceptor and gives each to a loop of its thread pool. All
-- report to the log, which prints into a LogStream. The example (example/echo.cc) is a server on
-- top of all this, which sends back what it receives.
--
-- * Buffer (Buffer.antt and below: twnl/Buffer.h, twnl/Buffer.cc). The record has the whole array
--   and the two indices. Buffer.antt has the operations under their source names in snake_case;
--   Buffer/Io.antt has readFd, writeFd and the edge-triggered loops. The children prove, one file
--   for each group of operations.
-- * Channel (Channel.antt and below: twnl/Channel.h, twnl/Channel.cc). An event mask is a record
--   of the bits that the source names, the static masks are the record Defaults, and the
--   callbacks of `handleEvent` are functions over the state of the channel's owner.
--   Channel/Text.antt has the texts of events for the log.
-- * TcpConnection (TcpConnection.antt and below: twnl/TcpConnection.cc). TcpConnection.antt has
--   the functions that run in the loop's thread, TcpConnection/Calls.antt the public functions,
--   the queued functors and histories of calls. What an operation does outside the object
--   (callbacks, writes and the bytes that the kernel took, queued functors, channel updates) is
--   recorded in a trace. Sending.antt and Pending.antt follow the bytes of a send, Closing.antt
--   and Draining.antt those of the output buffer, Lifecycle.antt the connection callback,
--   Ending.antt and Ended.antt the end of a connection.
-- * Connector (Connector.antt and below: twnl/Connector.cc). The state machine of an outgoing
--   connection; what it does to sockets, timers and the loop is recorded in a trace, and
--   `Reaches` has every order of its steps. The functors of `resetChannel` that the loop holds
--   are counted, and the timers of retries that still wait are listed: `stop` and the destructor
--   cancel `timer_`, which must be one of them.
-- * PollPoller (PollPoller.antt and below: twnl/Poller/PollPoller.cc over twnl/Poller.h). The
--   channels are named by pointers into a store, since the poller writes their indices and its
--   array moves entries. One child for each of adding, changing and removing;
--   PollPoller/Polling.antt has `poll` with what `::poll` answers, and Polled.antt is about it.
--   Poller.antt is a poller of either kind, as the loop calls it (twnl/Poller.cc).
-- * EpollPoller (EpollPoller.antt and below: twnl/Poller/EpollPoller.cc over twnl/Poller.h). The
--   registry of channels, with the calls of `epoll_ctl` recorded; EpollPoller/Interest.antt reads
--   the kernel's interest list off them; EpollPoller/Polling.antt has `poll` with the entries
--   that `epoll_wait` writes; EpollPoller/Kernel.antt has its descriptor and the calls of
--   `epoll_ctl` that fail.
-- * ThreadPool (ThreadPool.antt and below: twnl/EventLoopThreadPool.cc). The loops of a server by
--   number; ThreadPool/Rounds.antt is about the order in which they are given out.
-- * TimerQueue (TimerQueue.antt and below: twnl/TimerQueue.cc, twnl/Timer.h, twnl/Timestamp.h). A
--   store of timers and the set of their entries in order. TimerQueue/Order.antt is about the
--   set, Adding.antt and Canceling.antt about what a call does to it, Firing.antt about
--   `handleRead`. TimerQueue/Timerfd.antt has the descriptor behind the queue, the constructor
--   and the destructor, and Alarm.antt is about the times for which it is set.
-- * EventLoop (EventLoop.antt and below: twnl/EventLoop.cc). EventLoop.antt has the functions as
--   code of one thread; EventLoop/Steps.antt has the steps of the loop and of the threads around
--   it, in any order, and EventLoop/Refinement.antt ties the two. The fields `queued`, `ran` and
--   `early` record the functors (the last those that the loop's own thread has queued outside of
--   `loop`, for which nobody is woken), and `wakers` the threads that have not called `wakeup`
--   yet. `loop` takes what each call of `poll` finds, and ends when `quit_` is set.
--   EventLoop/Timers.antt passes timers on to TimerQueue. EventLoop/Making.antt has the
--   constructor and the destructor, with the channels that a loop makes for itself.
-- * LogStream (LogStream.antt and below: twnl/Log/LogStream.h, twnl/Log/LogStream.cc).
--   LogStream/Convert.antt has `convert` and `convertHex`; their loops have 20 rounds of fuel, as
--   many as a 64-bit integer has digits, which is proved to be enough. LogStream.antt has the
--   operators, each a case of `put`; LogStream/Chains.antt is about chains of them.
-- * Logging (Logging.antt and below: twnl/Log/Logging.h, twnl/Log/Logging.cc). `log` is a
--   statement of the log from the macro's test to the output; Logging/SourceFile.antt has the
--   names of source files.
-- * Sockets (Sockets.antt and below: twnl/SocketsOps.cc, twnl/InetAddress.cc). Addresses as the
--   union of both families, on a little-endian host, and the calls that end the program by
--   `LOG_FATAL`, which it does only where the level lets it. Sockets/Ops.antt has the two ways to
--   the text of an address, and back.
-- * Acceptor (Acceptor.antt and below: twnl/Acceptor.cc). Every descriptor that it gets, closes
--   or hands on is in a trace; `serve` is its life over any answers of the kernel.
-- * TcpServer (TcpServer.antt and below: twnl/TcpServer.cc). The map is an association list in
--   the order of insertion (the source's is in the order of names), and a connection object is
--   its name, its loop and a number that is not in the source. What is handed to the loops is in
--   a trace. TcpServer/System.antt puts the server together with its connections (the model of
--   TcpConnection, level-triggered) and the functors that their loops hold: a step relation in
--   which any functor may run next. Sound.antt has its invariant, and Accepting.antt,
--   Running.antt and Calling.antt the steps that keep it; Settled.antt is about every order of
--   steps.
-- * TcpClient (TcpClient.antt and below: twnl/TcpClient.cc) over the model of Connector, whose
--   `handleWrite` calls `newConnection`. A connection is the number in its name, and what is done
--   with it is in a trace.
-- * LoopThread (LoopThread.antt and below: twnl/EventLoopThread.cc). The steps of the new thread
--   and of its owner in any order; of the loop only its flag `quit_` matters.
-- * Echo (Echo.antt and below: example/echo.cc). The callbacks of the echo server over the model
--   of TcpConnection, and its set-up over those of TcpServer and of the thread pool.
--   Echo/Session.antt is an abstract session (what came, what was sent, what waits), Serving.antt
--   shows that each event keeps a connection and its session in step, and Whole.antt follows a
--   connection from its making on.
-- * Base (Base.antt and below) has what these share: Boolean tests, arrays as lists with native
--   indices, steps that can fail, size_t arithmetic.
--
-- Conventions. `none` is a failed assertion, or the use of memory or of a pointer that is not
-- valid; the release build compiles assertions out, and then the code goes on where the model
-- stops. size_t arithmetic wraps at 2^64 and the lengths of arrays are below 2^63. Times are
-- readings of the system clock, naturals where the source has signed 64-bit counters, whose
-- overflow is not modelled; the timerfd counts on the monotonic clock, and where a theorem needs
-- the two to agree, it says so. A queued functor has the bytes of a send as the memory holds them
-- when it runs, since the source binds the caller's pointer; that the memory and the connection
-- are still alive then is taken for granted. The answers of the kernel (readv, write, errno) are
-- arguments of the operations; a loop over them takes the list of the answers that it gets and
-- recurs on that list, so no fuel is needed, and the theorems about loops say which lists make
-- them return. A call from another thread is a call with `here` false, which only queues its
-- functor.
--
-- Not modelled: the texts that inet_ntop, strftime and printf make of addresses, times and
-- floats, which are arguments; the waiting of poll and epoll_wait themselves and thin wrappers of
-- system calls; the descriptor options of twnl/Socket.cc; the text that a timer's read logs and
-- the lines that the example logs; most setters of callbacks in TcpServer, TcpClient and
-- Acceptor; the user's callbacks beyond the fact that they run.
pub mod Acceptor
pub mod Base
pub mod Buffer
pub mod Channel
pub mod Connector
pub mod Echo
pub mod EpollPoller
pub mod EventLoop
pub mod LogStream
pub mod Logging
pub mod LoopThread
pub mod PollPoller
pub mod Poller
pub mod Sockets
pub mod TcpClient
pub mod TcpConnection
pub mod TcpServer
pub mod ThreadPool
pub mod TimerQueue
