-- ===== src/Lib.antt =====
-- LearnWeb (namespace skt): a C++ framework for network servers, with fibers on an epoll
-- scheduler, byte buffers, timers and an HTTP layer. This library models its parts as functions on
-- explicit state and proves what they promise.
--
-- How the model corresponds to the code:
-- - Common: Boolean tests, lists, the outcomes of a call (a value, a C++ exception, or a fault
--   where C++ leaves the behaviour undefined), bit operations as arithmetic. `sub64` is subtraction
--   on uint64_t and size_t with its wrap.
-- - Endian (skt/endian/endian.h): byteswap. The byte order of the machine, SKT_BYTE_ORDER, is a
--   parameter called host.
-- - ByteArray (skt/bytearray/bytearray.h, bytearray.cpp): ByteArray/Defs has the object and write,
--   read, setPosition, clear, addCapacity; ByteArray/Codec the typed writes and reads;
--   ByteArray/Buffers getReadBuffers and getWriteBuffers. The chain of nodes is a table with a
--   count, and a node pointer is an index, null being the count. Memory that nobody wrote holds
--   whatever the table says, so a theorem covers every content. ByteArray/Flat is the abstract view:
--   one sequence of bytes with a position and a size.
-- - Timer (skt/timer/timer.h, timer.cpp): Timer/Order has the comparison and the set as the
--   sequence of its elements in order; Timer/Defs the calls on a manager whose timers live at
--   addresses. The clock and the address of a new object are arguments.
-- - FdManager (skt/fd_manager/fd_manager.h, fd_manager.cpp): FdManager/Defs has the contexts and
--   the table; FdManager::get is two definitions, look and create, for its two critical sections, so
--   that an interleaving is a sequence of these.
-- - IoManager (skt/iomanager/iomanager.h, iomanager.cpp): IoManager/Defs is what happens to one
--   FdContext, IoManager/Calls the calls that find it in the table. Whether epoll_ctl fails is an
--   argument; what is handed to a scheduler is a list in the state.
-- - Http (skt/http/http.h, http.cpp, servlet.h, servlet.cpp): Http/Texts has the C library's
--   comparisons on lists of bytes; Http/Fields the std::map without case as a sequence in key order;
--   Http/Methods the two tables; Http/Messages HttpRequest, HttpResponse and dump; Http/Servlets
--   ServletDispatch and NotFoundServlet.
-- - Stream (skt/stream/stream.cpp): readFixSize and writeFixSize over the virtual read and write
--   as a parameter; the loop for a ByteArray has the length plus one as fuel, the one for a buffer
--   any number of rounds.
-- - Fiber (skt/fiber/fiber.h, fiber.cpp): the states of a fiber, and the functions that set them.
--   The context switch is not modelled: what a fiber does until it gives its thread back is a
--   parameter.
-- - Scheduler (skt/scheduler/scheduler.h, scheduler.cpp): the queue of tasks and schedule (Defs),
--   the loop of run that takes the next task (Choice), and a round of run: Run has one function for
--   each branch of what the thread does with the task, over a store of fibers. Workers has the
--   threads that run the loop beside each other, as a step relation whose steps are the stretches
--   between two points where other threads see a change: the locked choice of a task, the test of
--   its fiber, swapIn, the write of the state before the switch back, the count, and the write
--   behind it. The rest of the program schedules tasks and changes fibers at any time. IoManager
--   hands its tasks to the scheduler; there they are a list.
-- - Receive (skt/http/http_parser.h, http_parser.cpp, http_session.cpp, http_connection.cpp,
--   skt/streams/socket_stream.cpp): the classes around the generated parsers (Parsers), a connection
--   as the list of what each recv will answer (Source), recvRequest (Defs) and recvResponse
--   (Response). The generated parser is a parameter: what a call goes over, and the callbacks it
--   makes.
-- - HttpServer (skt/http/http_server.cpp, http_session.cpp): handleClient, over recvRequest, a
--   dispatch that is a parameter, and sendResponse, whose socket is what each send answers.
-- - Uri (skt/uri/uri.h, uri.rl): the functions behind the generated parser.
-- - HttpClient (skt/http/http_connection.h, http_connection.cpp): the requests of DoRequest and of
--   the pool, the errors that they report, and the pool of connections.
-- - Address (skt/address/address.h, address.cpp): the addresses as what stands in a sockaddr, with
--   the byte order of the host as a parameter; what is derived from a prefix length (Networks,
--   Masks6), the order of addresses (Order), paths (Paths), and the text that Lookup takes apart
--   before it calls getaddrinfo (Hosts). A shift or an index that C++ leaves undefined is an error
--   of the model.
-- - Hook (skt/hook/hook.cpp): do_io, which the hooked read, write, recv, send and accept call,
--   over a list of what the system call answers each time and a list of what comes of each wait, and
--   connect_with_timeout; both write down the actions they make on the timer and the event. The
--   context of a descriptor is the one of FdManager.
--
-- Bounds and fuel: the write and read loops take the length as fuel, since each round but the last
-- takes a byte at least; setPosition takes the position plus one; the varint loops take as many
-- rounds as the source has bytes or shifts; do_io goes through the answers and the waits it is
-- given, and is out of fuel where these end before it does. Where a call of the model could run
-- out of fuel its theorem shows that it returns. Sums of sizes and positions do not wrap, as these
-- are sizes of memory that exists.
--
-- Not modelled: the ragel parsers (generated), threads and locks, sockets and files (the system),
-- the context switch of fibers, the start and stop of the scheduler's threads, logging,
-- configuration, name resolution, and the start of the TCP server.
pub mod Common
pub mod Endian
pub mod ByteArray
pub mod Timer
pub mod FdManager
pub mod IoManager
pub mod Http
pub mod Stream
pub mod Scheduler
pub mod Fiber
pub mod Receive
pub mod HttpServer
pub mod Uri
pub mod HttpClient
pub mod Address
pub mod Hook
