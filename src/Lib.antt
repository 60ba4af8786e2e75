-- ===== src/Lib.antt =====
-- The Taurus library: the C++ classes for matrices (include/mars/matrix.h), byte buffers
-- (include/mercury/nio/buffer.h, src/nio/buffer.cpp), error objects (include/mercury/error.h),
-- internet addresses and socket addresses (src/net/inet_address.cpp), sockets (src/net/socket_impl.h,
-- src/net/socket_utils.h) with their options, input and output (src/net/socket_opt_impl.h,
-- src/net/socket_io_impl.h), the classes
-- over them (src/net/socket_base.cpp, src/nio/server_socket_channel.cpp) and URLs (src/net/url.cpp).
--
-- How the parts interact: a socket makes an address of a host text (NewInetAddress), puts it with the
-- port into a socket address, hands the C structure of that to the system, and reports failures in a
-- RuntimeError; URLs report in one too. A ByteBuffer is a Buffer with a ByteOrder. Matop changes the
-- TMatrix that it gets.
--
-- The files:
--   Shared        lists and tests on numbers; Outcome, which is how a C++ call ends: it returns, it
--                 stops at an assert or an uncaught exception, or it touches memory outside its storage
--                 (or is undefined otherwise); loops with a counter, and the rule for their invariants
--   Matrix        TMatrix: record Matrix (m_rows, m_cols, m_array), constructors, operator(), set; Arith
--                 has transpose and the operators, Rows has Matop, Print has print() and
--                 Matop::transpose. Cells and Views prove what one access does and define what a matrix
--                 stands for; Copies, Entries, Products, RowViews, Echelon and Identity prove the
--                 operations one by one. Fields states the laws of a field as the record IsExact, which
--                 Parity fills for the field of two elements; over such a field Associativity proves
--                 products of three, and Systems, Solutions and Equations what elimination does to a
--                 system of linear equations, Idempotence what it does the second time
--   ByteOrder     class ByteOrder; Meaning proves what the swaps do to the number
--   Buffer        class Buffer; Window proves what its positions keep
--   ByteBuffer    class ByteBuffer; Numbers has the reads and writes of the five number types; Chars,
--                 Array, Values and Relative prove them, Safety any sequence of the byte ones,
--                 and Sequence and ReadBack numbers that are written in a row
--   RuntimeError  class RuntimeError; Frames proves what its frames and its text say
--   Kernel        the operating system, libc and the compiler: the record Platform, an argument of what
--                 uses them
--   Inet          InetAddress, Inet4Address, Inet6Address; Hostname has hostname(). Equality proves
--                 comparison, Selection which addresses are collected, Naming hostname()
--   SocketAddress InetSocketAddress and its implementation object; Codec proves the C structure
--   Messages      socket_utils.h
--   Socket        class SocketImpl; Names has the queries, Listen and accept. Lifecycle, States and
--                 Binding prove it; Descriptors is a system that keeps a table of the open descriptors,
--                 on which Ownership follows them; Peers has a server and a client of one printed
--                 address
--   SocketIo      socket_io_impl.h: SocketReaderImpl and SocketWriterImpl, which share the record Io;
--                 Record is a system that writes down what it accepts, on which Sends proves any
--                 calls of Write and Progress repeated ones; Receives proves one Read. Pipe puts a writer
--                 and a reader at the ends of a queue; Streams proves one turn of them, Delivery any number
--   SocketOpt     socket_opt_impl.h and the block mode of socket_base.cpp; Values proves what is set and
--                 read back
--   Datagram      DatagramPacket (include/mercury/net/network.h) and DatagramSocket (socket_base.cpp);
--                 Transfer proves sending and receiving one packet; Mailbox puts two sockets at the
--                 ends of a queue of messages, on which Exchange follows any number
--   Facade        SocketBase, ServerSocket and StreamSocket (socket_base.cpp); Quiet has their methods
--                 without an error object, Streams proves accepting and transferring
--   Channel       ServerSocketChannel (src/nio/server_socket_channel.cpp); Life proves closing and
--                 making again
--   Selector      class Selector (include/mercury/nio/selector.h, src/nio/server_socket_channel.cpp)
--   EchoServer    main() of tools/echoserver/echo_server.cpp; Exits proves how it ends, Descriptors
--                 that it leaves none open
--   ListAddresses tools/lsnetaddr/lsnetaddr_main.cpp; Listing proves what it prints
--   SystemError   class SystemError (include/mercury/sys/system_error.h, src/sys/system_error.cpp)
--   Script        systems for the tests
--   Url           class URL; Objects has its copies and accessors; Ports, Walk, Hosts and Texts follow
--                 the parser, RoundTrip and Failures prove
--                 what it reads, Soundness what it accepts, Scans and Totality that it ends
-- A file whose name ends in Tests runs the code on concrete data and applies the theorems there.
--
-- Correspondence: an object is a record of its fields, a method a function from the record (and the
-- error object, and the state of the system) to the result and the new ones. Names are those of the
-- source in lower case with underscores; the overloads of one name have a word added (put_at, put_array).
-- size_t is taken mod 2^64. A value of a number type in a buffer is its bytes as they lie in memory. The
-- element type of a matrix is a parameter with its operations, total ones as those of double are. Every
-- assert is taken to be compiled in, as CMakeLists.txt has it. Loops are structural recursion on what they
-- run over, or on the number of turns left; no fuel is used.
--
-- Not modelled: the overflow of a port that is no int, which C leaves undefined in atoi and which is a
-- larger number here; the heap, so that no leak is visible; the implementation of the selector, the keys and the
-- registration of channels, which are declared only and so are parameters or absent; the test programs
-- under test/, which only print.
pub mod Shared
pub mod ByteOrder
pub mod Buffer
pub mod ByteBuffer
pub mod RuntimeError
pub mod Kernel
pub mod Inet
pub mod SocketAddress
pub mod Messages
pub mod Socket
pub mod Script
pub mod SocketIo
pub mod Datagram
pub mod Facade
pub mod Channel
pub mod ListAddresses
pub mod EchoServer
pub mod Selector
pub mod SystemError
pub mod SocketOpt
pub mod Url
pub mod Matrix
