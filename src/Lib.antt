-- ===== src/Lib.antt =====
-- A model of molerat, the event-driven network framework in C, and theorems about it.
--
-- Base and its children hold what the other modules share.
--
-- Tasklet is src/tasklet.c with include/molerat/tasklet.h. Tasklets, run queues and wait lists are
-- records in three stores. Tasklet/Runq has the run queues, from run_queue_enqueue to tasklet_run,
-- tasklet_stop, tasklet_fini and the loop of run_queue_run; Tasklet/Waiting has the wait lists and
-- tasklet_unwait. Each function is one critical section, and a value that the code reads without
-- the lock is an argument, so it may be out of date. Tasklet/Steps makes the critical sections of
-- the run queues the steps of one system, taken by the threads in any order. Rings are lists read
-- from the head: what the links do where a tasklet is unlinked from a ring that it is not on, or after a
-- failed assertion, is not modelled. Mutexes, the handlers and the threads themselves are not modelled;
-- thread_run_queue, which reads a thread-local variable, is the argument `here`.
--
-- Queue is src/queue.c with include/molerat/queue.h, on top of the wait lists of Tasklet: the array
-- is a function from indices, what xalloc returns is any such function, and the capacity is an
-- unsigned int that wraps.
--
-- Buffer is src/buffer.c with include/molerat/buffer.h. A growing buffer is its memory and the
-- offsets of limit and end; a byte range is a list. Sizes wrap at 2 ^ 64. A capacity that is not
-- zero is doubled 64 times at most before it holds 2 ^ 63 bytes, so the loops of growbuf_grow and
-- growbuf_vprintf run on that much fuel. What vsnprintf counts is an int; beyond it the code dies. Where the code aborts the result is `aborted`.
--
-- Stream is include/molerat/stream.h: what streams return, and the streams below a delimited one,
-- which are other code behind pointers to functions. Such a stream has a list of answers, each a
-- number of bytes, a wait or an error, and any list is allowed. Stream/Buffers is src/stream.c.
--
-- DelimStream is the writing end of src/delim_stream.c and DelimStream/Reader the reading end, with
-- a function for each state of their switches. DelimStream/Wire has the chunks and their bytes,
-- the proofs are in DelimStream/Sending and /Writing for writes, /Closing for the close, /Expecting
-- and /Reading for reads, and /Sessions for a whole stream. The loop of the close runs on fuel, of
-- which one more than the stream below has answers is enough.
--
-- HttpServer is src/http_server.c: the table of connections, whose loop of http_server_destroy runs
-- over the answers of mutex_transfer and what other threads remove meanwhile, and in HttpServer/Exchange the handlers of a connection, over its
-- tasklets, its timer and the table. What the reader and socket_close return are arguments.
-- HttpServer/Table has the table's invariant and /Destroying the loop; /Resting is about the tasklets, /Phases says what holds of a
-- connection in each phase, /Creating is about a new one and /Lifecycle about all events.
--
-- Timers is src/poll_common.c with src/poll.h and include/molerat/timer.h, at the level of pointers:
-- each timer has its next and prev, and a null next is `none`. Base/Rings reads such links as a list.
-- The loops over the ring run on fuel, of which the number of timers is enough. Timers/Ring has the
-- ring and timer_cancel, /Setting timer_set, /Dispatch and /Firing dispatch_timers, /Waking
-- earliest_latest, and /Sleeping the poll thread among threads that set and cancel timers. The timers
-- share one poll thread, and times are not negative and do not overflow.
--
-- HttpReader is src/http_reader.c with include/molerat/http_reader.h. The parser, http-parser, is a
-- parameter that gives the calls of callbacks that a run over some bytes makes; so are the sort of
-- xsort and what fresh memory holds. HttpReader/Callbacks has the callbacks, /Compare compare_headers,
-- /Parsing a run of the parser, /Prebody http_reader_prebody, /Body http_reader_body, and /Iterating
-- the iteration over the headers. /Pieces, /Holding, /Headers and /Fragments are about the url, the
-- names and the values, which may come in fragments; /Firing, /Filling, /Draining, /Finishing and
-- /Bounds are about the body; /Heading, /Returning, /Rounds and /Reentry are about the loops of
-- http_reader_prebody. The loops run on fuel: for the body one more than the bytes in prebody is
-- enough, and for the head one more than the stream below has answers. The offsets of the url, the names
-- and the values are ints, held by their bits.
--
-- HttpWriter is src/http_writer.c with include/molerat/http_writer.h. What a format comes to, and the
-- message that http_status_lookup finds, are arguments. The loop of finish_prebody runs on fuel, of
-- which one more than the stream below has answers is enough. HttpWriter/Finishing has the writes.
--
-- HttpStatus is src/http_status_gen.c, the program that writes the table of status codes, together
-- with the function http_status_lookup that it writes. HttpStatus/Codes has the codes, /Searching the
-- search for a multiplier and /Lookup the table. The search goes up in steps of two to 1024 times the
-- size of the table, so it runs on 512 times that size, and one. Unsigned ints wrap at 2 ^ 32.
--
-- Epoll is src/poll_epoll.c with include/molerat/watched_fd.h: watched descriptors, the list of those
-- to be freed, and the calls of handlers. What epoll_ctl answers is an argument. Epoll/Dispatching
-- interleaves the dispatch with other threads.
--
-- Poll is src/poll_poll.c, the same over poll: the slots of descriptors, the list of updates,
-- poll_prepare and poll_dispatch. Poll/Slots and /Holding have what holds between the operations,
-- /Watching poll_prepare, /Turning, /Calling and /Dispatching poll_dispatch, and /Moving all operations in any order. The
-- loop of poll_dispatch runs on fuel, of which the number of slots in use is enough.
--
-- Socket is src/socket.c, on the wait lists of Tasklet and the watched descriptors of Epoll, with the
-- answers of the system calls as arguments: Socket has connected sockets, Socket/Server listening
-- ones, and Socket/Connector the connector and the sockets of a client. Socket/Scanning and /Accepting
-- are about accepts, whose events come once in a round, each with its up, and /Connecting is about
-- start_connecting. An accept runs on fuel, of which the ups of its wait list and the events to come, and
-- one, are enough.
--
-- Echo is the echoer of src/echo_server.c, between the two streams of its socket. Its loop runs on fuel,
-- of which one more than the answers to its writes is enough.
--
-- Errors is the struct error of src/base.c and include/molerat/base.h, with the memory of the messages.
-- What vasprintf and strdup give is an argument. Errors/Owning says which error owns a message, and
-- /Lifetimes goes through the calls.
--
-- Not modelled: the waits in epoll_pwait and poll, the addresses of sockets with resolving and
-- binding, the accepting of connections by the servers, src/socket_transport.c, threads, allocation
-- and the programs.
pub mod Base
pub mod Buffer
pub mod DelimStream
pub mod Echo
pub mod Epoll
pub mod Errors
pub mod HttpReader
pub mod HttpServer
pub mod HttpStatus
pub mod HttpWriter
pub mod Poll
pub mod Queue
pub mod Socket
pub mod Stream
pub mod Tasklet
pub mod Timers
