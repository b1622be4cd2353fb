-- ===== src/Lib.antt =====
-- Verification of the C++ practice library cpp_prac: templates for search and sort, a thread
-- library, a TCP library and small programs.
--
-- The parts of the program and the modules that model them.
--
-- algorithm/search.hpp is Algorithm/Search (`simpleSearch` is `simple_search`, `binarySearch` is
-- `binary_search`), and algorithm/sort.hpp is Algorithm/Sort (`selectSort`, `bubbleSort`,
-- `quickSort`, `mergeSort`). The elements are any type with the comparisons of int
-- (Prelude/Order), and Prelude/Int has the ints themselves. Algorithm/Descending says what a
-- descending rearrangement is.
--
-- algorithm/tree.hpp is Algorithm/Tree, on an explicit heap of nodes (Nodes). Shapes says what it
-- is for a heap to hold a search tree, Insert and Removal have what the code does to such a tree
-- as plain functions, and the other modules below it lead from the commands to these: Adding and
-- Building for `add`, Members and Visiting for `search` and `travPrint`, Freeing for the
-- destructor, and for `del` Slots (the places that point to a subtree), Detaching, Unlinking,
-- Handing, Promoting, Pairs, Deleting, Lifting and Searching. Unfolding, Shrinking, Removing,
-- Without and Stuck are about the plain removal, and Deletion and Sessions put the two sides
-- together.
--
-- nnero/ is Nnero: Nnero/BlockingQueue is the template of nnero/bqueue.hpp, each method one step
-- under its mutex. Nnero/ThreadPool is nnero/thread_pool.cpp, a pool of workers that take their
-- tasks from such a queue, as a relation of steps of one client and any number of workers in any
-- order. Nnero/TimeWheel is nnero/time_wheel.cpp, which hands a task to a thread pool after a
-- delay; the pool is the list of what it was given. Nnero/Logging is `logInit` on the text of a
-- file, of nnero/logging.cpp, and Nnero/Logging/Output the macro `LOG`, with what goes to the console
-- and to the files. Nnero/Nthread is nnero/nthread.cpp: threads with a flag by which they are
-- interrupted, as functions on the flags of the threads that run; Moves says who can reach a
-- thread. The queue and the pool take an interrupt as an argument.
--
-- network/ is Network: Network/TcpSocket is network/tcp_socket.cpp. Network/Poller is
-- network/poller.cpp, the table of the descriptors that are polled. Network/TcpServer is
-- network/tcp_server.cpp, which accepts clients from the server's socket, registers them with the
-- poller and calls its user back for what the poller reports; Clients has its count of the clients on
-- one entry of the result map, Keys and Keeping the order of that map and what an entry keeps, Turns
-- the whole map, and Tables the table of the poller. Network/EventLoop is
-- network/event_loop.cpp, which calls the server's `handleEvent` in turns until it is told to
-- quit.
--
-- Network/TcpConnection has the reads and the writes of network/tcp_connection.cpp, and
-- Network/ChatServer is network/server.cpp: its two callbacks, on the list of the active
-- connections.
--
-- prac/cal.cpp is Prac/Calculator: `Calculator.eval` and all that it calls, and its `main` in Session.
-- Prac/Calculator/Grammar has the expressions that it is for, Reading the turns of `eval` on their
-- chars, and Values which of them have a value. prac/tq.cpp is Prac/TextQuery:
-- `parseExpr` and `evalCommands`, with the queries that they are for in Prac/TextQuery/Queries.
--
-- prac/server.cpp is Prac/Server: the loop of the relay server (`poll_turn` is one turn of it) and
-- `processConnOnce`. Its Slots has the invariant of the tables, Turns that a turn keeps it, and
-- Relay who gets a message. sdl2/snake.cpp and sdl2/move_cure.cpp are Sdl2/Snake: their loop over
-- the events, which is the same in both, with the place of the cube as what a frame draws.
--
-- How the state is kept. A class is a record of its fields, and a method is a function from the
-- record to the record, with the value or the exception it ends in. An exception leaves the fields
-- as they are at the throw. Behaviour that C++ leaves undefined (a read past the end of an array,
-- the top of an empty stack, a read through a reference to an element that was popped) ends the run in
-- a result of its own. A vector, a stack, a queue and a
-- map are lists. What the kernel answers to a system call is an argument, and what it is asked is
-- a list. A double is an element of a type with four operations (Prac/Calculator), of which
-- nothing is assumed. A relation of steps says what threads can do, and not that they do it. A callback of the server leaves the fields of the server alone.
--
-- Bounds and fuel. A size_t has 64 bits and wraps in the search, where a wrap is reached;
-- elsewhere the counters are numbers that stay below the sizes of their types, but for those of
-- `selectSort` and `bubbleSort`, ints which are only printed and overflow above about 65536 elements.
-- The index that the search returns and the slots of the wheel are narrowed to int. `binary_search` has
-- as fuel the length of the array and 2, one unit for each round: a round leaves a shorter range.
-- The end of the fuel is an answer of its own. `quick_sort` and `merge_sort` have the length of
-- the array as fuel for the depth of their calls, since each half is shorter than the whole. The
-- loops of a tree have its size as fuel for their rounds, and its recursive functions one more for
-- their depth: no way down a tree is longer. All other loops end by the structure of their data,
-- but `intersection` and `union`, which have the sum of the two lengths, since each turn takes an
-- element. The loops of prac/server.cpp go over the 1024 slots. The calculator's buffer has 64
-- places and its numbers are ints of 32 bits.
--
-- What is not modelled: standard output and the uses of the log, real time, memory and the life of
-- objects (except in the tree and for the flags of threads, and where a descriptor is closed
-- twice), and the programs that mostly draw, print or call a library: the drawing in sdl2/,
-- fltk_prac/, the other programs in prac/, the calls before the loop of prac/server.cpp, and the
-- mains in network/. The start and the join of system threads are in the thread pool and the wheel
-- as far as their own state shows them.
pub mod Prelude
pub mod Algorithm
pub mod Nnero
pub mod Network
pub mod Prac
pub mod Sdl2
