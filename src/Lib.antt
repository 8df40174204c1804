-- ===== src/Lib.antt =====
-- networks-course: the C programs of a course on computer networks, week01, week04, week05, week06
-- and week06d.
--
-- The nodes of week06d and week06 keep a directory of the nodes they know, greet a node that is given on
-- the command line, ask it for the nodes it knows, answer the requests of others and ping each other, in
-- an event loop over poll. week06d speaks a binary protocol and has its own directory; week06 speaks JSON
-- and keeps its data in the containers of week06/src/ds. In week04, over TCP, and week05, over UDP, a
-- server greets the students that a client tells it of. week01 is a process that keeps a stack for its
-- parent.
--
-- The parts and their files:
--   Prelude           numbers, lists, texts, arrays that are read and written in bounds, and runs: a run
--                     of C code is `ok` with its result or a `fault` where it would access memory out of
--                     bounds or through a null pointer
--   Hash              polynomial_hash of week06/src/ds/hashmap.c, and of week06d
--   Sockets           the system calls on sockets: the answers of the system are a parameter, and the calls
--                     that were made are kept
--   Week01.Stack      week01/ex1.c: the stack (stack_push, ...) and the commands of `child`
--   Week01.Shell      `parent`, and how `child` splits what it is sent; Words for a line, Sending and Typed
--                     for many
--   Week04.Message    week04/common.h and week05/common.h: the structs as bytes, and the greeting
--   Week04.Session    the loops of week04/client.c and week04/server.c
--   Week05.Worker     the loop of a worker of week05/server.c
--   Week06d.Node, Week06d.Directory   week06d/include/node.h, week06d/src/known_nodes_hashmap.c
--   Week06d.Wire      week06d/src/client_context.c, and the layout of a struct node in a message
--   Week06d.Handlers  week06d/src/handlers.c: the handlers, by the magic byte of a request
--   Week06d.Bootstrap week06d/src/bootstrap.c and requests.c: what is sent, and how answers are read
--   Week06d.EventLoop week06d/src/event_loop.c
--   Week06d.Pings     week06d/src/pings.c: Steps for what happens in any order, Outcomes for what follows
--   Week06d.Requests  the calls of week06d/src/requests.c, and of bootstrap.c
--   Week06d.Server    week06d/src/server.c, with Listening and Clients for its sockets
--   Week06d.Main, Week06d.Start   week06d/src/main.c: the command line, and the start of a node
--   Week06.Machine    the allocator, and what a comparison function makes of an entry's memory, which are
--                     not in the repository and are parameters
--   Week06.Vector, Week06.Hashmap, Week06.Refcounter   week06/src/ds/vector.c, hashmap.c, refcounter.c
--   Week06.Json       week06/src/ds/json/interface.c and parser.c: Value and Interface for the values,
--                     Tokenizer, Parser and Serializer for the texts, RoundTrip for values that are
--                     written and read again
--   Week06.Known      week06/src/known_nodes.c and known_files.c
--   Week06.Files      week06/src/my_files.c
--   Week06.Serializers   week06/src/serializers.c, and how the fields of a value are read
--   Week06.Handlers   week06/src/handlers.c
--   Week06.Control    the commands of week06/src/control.c
--   Week06.Bootstrap  week06/src/bootstrap.c
--   Week06.Requests   week06/src/requests.c: the text of a request, and awaiting a response
--   Week06.Server, Week06.Pings   handle_client_data of week06/src/server.c; week06/src/pings.c
--   Week06.Listening  the sockets of week06/src/requests.c, server.c and control.c
--   Week06.FileTransfer   week06/src/file_transfer.c
--   Week06.EventLoop  week06/src/event_loop.c
--   Week06.Logging, Week06.Main   set_log_level of week06/src/logging.c; the command line of
--                     week06/src/main.c
--   Tests             concrete runs
--
-- A function of the source is a function of the same name that takes the state it reads and returns the
-- state it changes. A `char` array that holds a string is the string. A JSON value is a tree. Where a
-- value is changed through a pointer into a tree, in week06/src/server.c, the changed tree is written
-- out. What a handler hands to the code that sends, or to a file transfer, is part of its outcome.
-- `pack`, `pack_from` and `send_receive_sock` are called in week06 and defined nowhere in the
-- repository: they are parameters.
--
-- Fuel: a loop of the source is recursion over the list it walks where there is one. The parser has fuel
-- for three rounds for each token and three more, the tokenizer a round for each byte, vector_insert a
-- round for each element of the array, the loops over the descriptors and the tasks a round for each slot
-- and, in week06, one more, the transfer of a file a round for each word and one for its end. The loop of
-- vector_insert, once entered, goes on until it leaves the array.
--
-- Not modelled: files, poll and time, whose results are arguments, as what a system call answers is;
-- freeing memory, since the functions that free it do not use it again; failing allocations; the
-- messages that are logged; threads, of which those of week05 share nothing but a socket.
pub mod Prelude
pub mod Hash
pub mod Sockets
pub mod Week01
pub mod Week04
pub mod Week05
pub mod Week06
pub mod Week06d
mod Tests
