-- ===== src/Lib.antt =====
-- The epoll server library: a TCP server around one event loop per thread, after muduo.
--
-- A `TcpServer` accepts connections and gives each to an event loop; a loop waits in its poller,
-- dispatches what arrives through channels to the connections that own them, and then runs the
-- functors that were queued meanwhile. Paths are from the repository's root.
--
-- Base: shared names; `Base/Faults` has the ways in which the program stops (a failed assert, an
--   exception of the vector, an access out of bounds, an overflow, LOG_FATAL) and `Result`;
--   `Base/Words` has `size_t` arithmetic modulo 2 ^ 64; `Base/Strings` has text as lists of
--   character codes.
-- Endian.h: `Endian`, on a little-endian host.
-- Buffer.h and Buffer.cpp: `Buffer` (the record, space, appending, prepending, retrieving),
--   `Buffer/Numbers` (integers in network order), `Buffer/Search` (findCRLF, findEOL),
--   `Buffer/ReadFd` (readFd). A pointer into the vector is an offset from its begin; a byte is a
--   number. `Buffer/Valid` has the invariant and the abstract view, the list of readable bytes.
-- Channel.h and Channel.cpp: `Channel`. The record `LoopOps` there is what channels and their
--   owners ask of an event loop, with laws; `EventLoop/Ops` fulfils it. `Channel/Dispatch` has
--   handleEvent, over any state that has a channel and callbacks, `Channel/Printing` the names of
--   events.
-- Poller.h, Poller.cpp and poller/EPollPoller.cpp: `Poller`. The kernel's epoll is the record
--   `Epoll`, with what epoll_ctl(2) documents as its laws.
--   `Poller/Poll` has poll, where what epoll_wait returns is an argument and the channels lie in a
--   store.
-- EventLoop.h and EventLoop.cpp: `EventLoop`. `EventLoop/Rounds` has loop(): a round is given by
--   what epoll_wait returns and the time, and the state is any that has a loop (`HasLoop`).
-- TcpConnection.h and TcpConnection.cpp: `TcpConnection`, with the sends in `TcpConnection/Sending`,
--   the handlers as those of the channel in `TcpConnection/Owner`, and the callbacks that TcpServer
--   sets at first in `TcpConnection/Defaults`. What `write` and `readv` answer are arguments of the
--   handlers, so a theorem holds for every answer that its premises allow; the user's callbacks are
--   a parameter. The field `wire` of the record collects the bytes that the kernel has accepted.
-- EventLoop.cpp, Channel.cpp, TcpConnection.cpp and the close callback of TcpServer.cpp together:
--   `Session`, a loop and one connection of it, which holds its loop. The connection echoes, and is
--   destroyed by the functor that the close callback queues. A round is as in `EventLoop/Rounds`.
-- TimerQueue.h, TimerQueue.cpp, Timer.h and Timer.cpp: `TimerQueue`, with reset in
--   `TimerQueue/Repeating`, and addTimer, cancel and the timerfd in `TimerQueue/Setup`. The timers
--   lie in a heap, a function of addresses; the clock's reading and what a callback does are
--   arguments, as is addTime, which reads a timer's interval.
-- SocketsOps.cpp, InetAddress.h, InetAddress.cpp, Socket.h and Socket.cpp: `Sockets`. What a system
--   call answers is an argument; inet_ntop and inet_pton are the record `Inet`, with what their
--   manual pages say as laws. The union of `InetAddress` is the type `SockAddr`.
-- Acceptor.h and Acceptor.cpp: `Acceptor`.
-- TcpServer.h and TcpServer.cpp: `TcpServer`. The record `ConnectionOps` is what a server asks of
--   its connections, and `TcpServer/Instance` fulfils it by TcpConnection. A connection lies in a
--   store at its address, and each loop has a queue of the functors that the server hands it.
-- main.cpp: `Main`, up to the call of loop().
-- EventLoopThread.h and EventLoopThread.cpp: `EventLoopThread`, a step relation of the owner and the
--   thread, in which each access to a shared variable is one step.
-- EventLoopThreadPool.h and EventLoopThreadPool.cpp: `EventLoopThreadPool`. Where each thread's loop
--   lies is an argument. For the timers and the pool an argument also says
--   whether the caller is in the loop's thread.
--
-- Not modelled: logging, but for the messages that end the program; the mutex of the functor
-- queue, as an operation of one thread is one step; a vector's capacity, only its size and
-- `max_size`; the functions that pass a system call on, whose answers are arguments; the calls of
-- EventLoop::quit by others than the owner of an EventLoopThread; in `Session`, the events of other
-- channels and the sends of other threads; the base library, but for the length of a StringPiece;
-- the copy of the original muduo and the examples, which are not this program's own code.
--
-- Each loop runs over a list. Only `digits_of` in `Base/Strings` takes fuel, the number of digits:
-- ten are enough for 32 bits.
pub mod Base
pub mod Endian
pub mod Sockets
pub mod Buffer
pub mod Channel
pub mod Poller
pub mod EventLoop
pub mod TcpConnection
pub mod Session
pub mod EventLoopThreadPool
pub mod TimerQueue
pub mod Acceptor
pub mod TcpServer
pub mod EventLoopThread
pub mod Main
pub mod Examples
