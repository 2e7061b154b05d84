-- ===== src/Lib.antt =====
-- The network experiments of rdma-project: programs that measure the throughput and the latency of
-- TCP sockets and of RDMA verbs between a client and a server.
--
-- ConnectionExperiments has one program, which is client or server, and for each kind of connection
-- a class for either end with two operations, run_throughput_tests and run_latency_tests. A run is a
-- test for each of a list of chunk sizes. The two ends have no protocol but the order of their calls:
-- each test works only if what one end sends is what the other receives next.
--
--   Settings   ConnectionExperiments/experiment_type.h and the constants of utils.h.
--   Measure    The result structs and calculate_throughput of utils.h; the arithmetic of double is
--              a parameter (Floating).
--   Host       A process as the operating system sees it: its socket's two streams of bytes, its open
--              files, its calls so far. The results of send, recv, open, read and of the clock come
--              from a Kernel, a parameter; Host.Reliable has what is assumed of one, by name;
--              Host.Effect and Host.Waits what a run does that returns, or that waits for bytes.
--              Host.Ints has the conversions between ssize_t, int and size_t.
--   Utils      ConnectionExperiments/utils.cpp: dev_random_data and GenerateRandomData; Letters has
--              random_data, Cards get_ib_card_address.
--   Tcp        TcpClient.cpp and TcpServer.cpp. Socket: send_tcp_message and receive_message, which
--              the two classes define alike. Setup: the constructors. Client, Server: the tests.
--              Transfer: both together.
--   Rdma       RdmaClient.cpp and RdmaServer.cpp. Verbs: the calls of the library infinity. Client,
--              Server: the tests, each the calls that it makes. System: both ends with the messages
--              between them, as a relation of steps, and what holds in every order of steps.
--              Agreement and Surplus apply that to the tests of the code. Memory: what the calls of a
--              test do to the registered buffers. Exclusive: who may work on the data when, and
--              what both buffers hold after a test. Bounds: where the one-sided tests read and write.
--              Latency: the messages of the latency tests. Setup: the constructors. Results: the files of
--              results.
--   Cli        main.cpp: the options and the choice of experiment, as a function from the arguments to
--              the tests that are run. Strings are compared, never taken apart; std::stoi and
--              std::to_string are parameters.
--   Legacy     RunClient.cpp and RunServer.cpp, the first form of the RDMA experiments. Offsets are
--              int there. Agreement has reading and writing, TwoSided the direction that never runs.
--   Program    main.cpp again: the tests that it chooses, run by the classes of the RDMA connection.
--              Safety has the client's program and the server's together. Tcp: the same for the classes
--              of the TCP connection; in Tcp.Exchange each end runs on what the other has sent so far.
--   Queue      QueueExperiments. Utils, Cards: utils.cpp. Settings: utils.h. Bcl: bcl_tests/BCLTests.cpp;
--              System has all processes of its main with the queue, as a relation of steps, Order what
--              comes out of the queue, Rounds the functions master and worker, alone and, in Pair,
--              taking turns on one queue. Boost: boost_tests/BoostTests.cpp, one process of it; its loop
--              runs on fuel, and Hang shows that none is enough for process 0. The queues are parameters;
--              Bcl.Queues and Boost.Queues have what is assumed of them, by name.
--
-- Functions keep the names of the code. A loop of the code that is the body of a method is a function
-- by its side; such loops run on fuel, a size more than the rounds they make, and every theorem that
-- says a test returns includes that the fuel was enough. In send_tcp_message the fuel is for every
-- run in which each call makes progress, and for two failed calls. Sizes and offsets are size_t: sums
-- are taken modulo 2^64, and the theorems ask that the data leave room for a chunk. A test of either
-- end returns the line that goes to the results file, the TCP server the data that it holds.
--
-- Not modelled: console output, but for that of the queue experiments; the library
-- infinity, which is not in the repository, but for the order in which its messages go and what a read
-- or a write copies; the wait for a send to complete, since in Rdma.System a send needs nothing of the
-- other end; the buffer that a test of RdmaClient makes for itself, beyond its length and contents; the parts of QueueExperiments that are only comments, and its sleeping; the files
-- that CMake wrote.
pub mod Common
pub mod Settings
pub mod Host
pub mod Measure
pub mod Utils
pub mod Tcp
pub mod Rdma
pub mod Cli
pub mod Program
pub mod Legacy
pub mod Queue
