-- ===== src/Lib.antt =====
-- sylar, a server framework in C++: timers, byte arrays, streams, fibers and their scheduler, the
-- events of file descriptors, the messages of HTTP, the client's connections, and the dispatch of
-- servlets.
--
-- Parts of the program and the files that model them.
--
-- TimerManager (timer.h, timer.cc): Timer. A timer is a record at an address, and m_timers, a
-- std::set of pointers with Timer::Comparator, is the list of the addresses in the set's order
-- (SortedSet models the operations of std::set that the code calls). The clock is an argument `now`
-- of every operation that calls GetCurrentMS, and `m_manager` is the one manager of the model. The
-- RWMutex makes each operation one step: Timer/History takes sequences of calls as a step relation.
-- getNextTimer holds only the read lock, yet writes m_tickled; the model takes it as one step.
--
-- ByteArray (bytearray.h, bytearray.cc): ByteArray is the memory, with the position, write, read,
-- setPosition, toString, the files (ByteArray/Files) and the iovecs (ByteArray/Buffers). A call
-- returns a value, throws out_of_range, or is undefined, where the C++ dereferences a null pointer
-- or indexes past an array. Serial is what is written: the fixed-size integers on a machine of
-- either byte order (`host`), the varints, the zigzag codes and the strings. read(position) and
-- size_t arithmetic wrap where the source's operands can; elsewhere ByteArray.Valid bounds them.
--
-- Fiber (fiber.h, fiber.cc): Fiber is the state of a fiber with the assertions on it. How a fiber
-- switches out is an argument (Switch), since the stacks are the system's.
--
-- Scheduler (scheduler.h, scheduler.cc): Scheduler has the queue, the search of run for a task
-- (Scheduler/Pick), and what run does with it (Scheduler/Round); what the fiber does meanwhile is an
-- argument (Work). The calls of tickle are counted. It calls the operations of Fiber.
--
-- IOManager (iomanager.h, iomanager.cc): IoManager has the contexts of the file descriptors, as a
-- vector, and m_pendingEventCount; epoll_ctl is an argument, and the calls of Scheduler::schedule
-- are kept as a list. IoManager/Context has the context of one file descriptor; IoManager/History
-- takes sequences of calls as a step relation. IoManager/Race takes apart what the locks leave
-- open: addEvent's look at the size and its resizing, and a report of epoll_wait and its handling.
--
-- FdManager (fd_manager.h, fd_manager.cc): FdManager, with the two parts of get apart, each under
-- its lock. The kernel's answers are an argument.
--
-- ServletDispatch (htttp/servlet.h, htttp/servlet.cc): Servlet; fnmatch is an argument, and an
-- unordered_map is a list of pairs.
--
-- StringUtil (util.h, util.cc): Util has UrlEncode and UrlDecode, with the text that they copy only
-- when they must, and the three Trims. A character is its code, and isxdigit is that of the C locale.
--
-- HTTP messages (htttp/http.h, htttp/http.cc): Http/Method and Http/Status are the two tables of
-- names, Http/Order the order of the maps' keys, Http/Request and Http/Response the messages and
-- their texts, Http/Params the macro PARSE_PARAM. A MapType, a std::map, is a list of pairs in the
-- order of its keys; Dict has its operations for any strict weak order, as the C++ standard asks for
-- one. Http/Request calls Util and Http/Params.
--
-- Streams (stream.h, stream.cc, socket_stream.h, socket_stream.cc): Stream. A Stream is a record of
-- read and write with what they promise, which the loops of readFixSize and writeFixSize take as
-- an argument, and a SocketStream is an instance of it, over the calls of a Socket, an argument
-- too. Stream/Pieces reads into a ByteArray by way of its iovecs, and writes from it.
--
-- The HTTP client (htttp/http_connection.h, htttp/http_connection.cc): Connection has the requests
-- that the client makes and what it returns, Connection/Pool the pool. What the system answers is an
-- argument; Connection/Pool/History takes sequences of getConnection and of releases as a step
-- relation. m_total is an int32_t, as its pattern.
--
-- HTTP sessions (htttp/http_parser.h, htttp/http_parser.cc, htttp/http_session.h,
-- htttp/http_session.cc): Session has the callbacks of HttpRequestParser, and recvRequest over a
-- Stream. The parser that Ragel generates is an argument, which makes the callbacks, as is what
-- std::stold makes of the content-length, and the lengths for which there is room; recvRequest
-- calls the operations of Http/Request and the loop of Stream.
--
-- HttpServer (htttp/http_server.h, htttp/http_server.cc): Server has handleClient, which calls the
-- session, the dispatch of Servlet, and the session again. What a servlet does is an argument. One
-- number bounds the rounds of handleClient and of each recvRequest.
--
-- Addresses (address.h, address.cc): Address has the masks of a prefix and what is made by them,
-- with the shift of an int that CreateMask makes, and the order of two addresses; Address/Unix the
-- addresses with a path. An IPv4 address is a number in the machine's order; an index past the 16
-- bytes of an IPv6 address is undefined.
--
-- Conventions. Numbers are the native naturals. Machine integers wrap by `% 2 ^ w`, a subtraction
-- that can wrap adds `2 ^ w` first, and a signed value is a ℤ, with its two's complement pattern
-- in Prelude/Int. A byte is a number; theorems that need it below 256 say so. A failed
-- SYLAR_ASSERT is a result (Prelude/Outcome). A size that the source casts to an int is compared
-- by int_at_most of Prelude/Int, which is negative from 2^31 on. Memory that is used up is
-- modelled only for the body of a request, of which the length comes from the peer (Room of
-- Session). Loops are structural recursions over the nodes, the queue or the reports, or over the
-- elements of tmp that are left; the loop of readFromFile is on fuel, one more than the length of
-- the file, since a round takes one byte at least; that of recvRequest on a number of reads, of
-- which one more than the stream has bytes is enough; that of PARSE_PARAM on one more than the
-- length of the text, since a round goes past one character at least; those of readFixSize and
-- writeFixSize on the number of bytes, since a round moves one byte at least.
--
-- Not modelled: logging, configuration, sockets, the look-up of addresses, hooks, threads and
-- locks, the TCP server, recvResponse, and uri.cc and the two *_parser.rl.cc, which Ragel
-- generates. In ByteArray, toHexString and the float and double forms, which copy bits into an
-- integer of the same size. In http.h, the templates that convert a value by std::stold.
pub mod Prelude
pub mod Bits
pub mod SortedSet
pub mod Timer
pub mod ByteArray
pub mod Serial
pub mod IoManager
pub mod Fiber
pub mod Scheduler
pub mod FdManager
pub mod Servlet
pub mod Dict
pub mod Util
pub mod Http
pub mod Connection
pub mod Stream
pub mod Address
pub mod Session
pub mod Server
