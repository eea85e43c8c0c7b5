-- ===== src/Lib.antt =====
-- UniEvent, the asynchronous I/O library: its core logic, modelled and proved.
--
-- UniEvent wraps an event loop (backend-uv/ over libuv) in handles and requests. What it adds to the
-- backend is modelled here; the backend, c-ares, OpenSSL and the panda containers are not: what they
-- answer is an argument of the definitions, and an IntrusiveChain is a list.
--
-- - Queue (src/panda/unievent/Queue.h, Request.h): the queue in which a stream or an UDP handle runs its
--   requests one by one. `push`, `done`, `cancel` and `resume` call client code that may call the
--   queue again or throw. Queue.antt has the state and these calls, Queue/Run.antt runs them as a machine
--   with an explicit stack: one step is the code up to the next call of client code. `assert` stops
--   the machine. The counters of 32 bits wrap. The lists `pushed`, `popped`, `called` and `started`
--   record the run and decide nothing. The guard of `done` is taken to run its second function also when
--   the first throws, and to pass the exception on then.
-- - Delayer (src/panda/unievent/backend/Delayer.h, backend-uv/src/UVDelayer.h): the callbacks that the
--   loop calls at its next turn. A callback is a list of calls of the delayer and may end by an
--   exception. Which guarding objects are alive is fixed for a turn: that a callback releases the guard
--   of a later one is not modelled. `call_loop` recurs on the number of rounds left, which is the size
--   of the list.
-- - Streamer (src/panda/unievent/Streamer.h, Streamer.cc): the flow control between an input and an
--   output, as functions on the streamer's fields; the answers of both sides are a record `Peer`.
-- - Streamer/File (streamer/File.h, File.cc in src/panda/unievent): the file ends of a streamer. The
--   calls of `Fs` are recorded in `calls`, their answers come as arguments, and what the streamer does
--   inside `handle_read`, `handle_eof` and `handle_write` is an argument `Reaction`.
-- - Streamer/Ends (streamer/Stream.h, Stream.cc in src/panda/unievent): the ends of a streamer that are
--   streams, over the reading of Stream.antt. A listener and a request are numbers.
-- - Stream (src/panda/unievent/Stream.h, Stream.cc): the flags of a stream as the bits of a number, its
--   reading, and `_wq_size`, which wraps at 2^64. `impl_reading` is what the calls of the backend ask for:
--   that libuv stops to read at the end of the input by itself is not modelled.
--   Stream/Flags.antt decides questions about the ten bits by tables over their 1024 values.
-- - Stream/Filters (the same files, StreamFilter.h): the chain of filters. The type of the priorities and
--   their comparison are parameters, since a priority is a double; the laws of an order are hypotheses
--   where they are needed, and hold for doubles other than NaN.
-- - Stream/Requests (src/panda/unievent/Stream.h, Stream.cc, with Queue.h and Request.h): connect, write,
--   shutdown and disconnect requests of a stream without filters, over the flags and sizes of
--   Stream.antt, with `reset`, `clear` and the timers. Its queue is the one of Queue.h between two calls of
--   client code, so callbacks begin nothing; requests that a loop ends in one go are taken to be at most
--   300, above which `Queue::done` would delay them. A request is a number with what its kind needs. Accept
--   and run-in-order requests are left out. `lost` and `forgotten` record writes and decide nothing.
-- - StreamFilter (src/panda/unievent/StreamFilter.h, StreamFilter.cc, Request.h): the way of a request through
--   the chain of filters and back. What a filter does with a request is a function of the filter; one
--   that makes a subrequest takes it away when it is told of its end, as ssl/SslFilter.cc does. The
--   pointers `prev` of a filter are given with it, so the chain does not change in between.
-- - Tcp (src/panda/unievent/Tcp.h, Tcp.cc): the connect request of a TCP stream without filters, from its
--   start to the event that Stream/Requests takes up. The resolver, the backend, the timer and the next
--   turn are steps; an address is a number.
-- - Pipe (src/panda/unievent/Pipe.cc, backend/PipeImpl.h): opening a pipe from a descriptor, and pairs, over
--   the flags of Stream.antt. The backend's answers are arguments.
-- - FsPoll (src/panda/unievent/FsPoll.h, FsPoll.cc): polling a path. The stat structure and its
--   comparison are parameters; a callback may stop the poll. `answered` is the callback of the request
--   with its guards, for the requests of earlier runs too.
-- - SslBio (src/panda/unievent/ssl/SslBio.h, SslBio.cc): the memory buffer between OpenSSL and a stream,
--   for OpenSSL 1.1 or later. Lengths are cut to 32 signed bits where the code casts them to `int`.
-- - SslFilter (src/panda/unievent/ssl/SslFilter.h, SslFilter.cc): the handshake of a TLS filter, its reads
--   and its writes. What OpenSSL and the handle answer during a call is a record, `Handshake` or
--   `Reading`. `events` records what the filter passes on, newest first; a callback may reset the stream.
--   SslFilter/Sound.antt has the invariant, SslFilter/Answers.antt the steps of a filter. A negotiation
--   that finds `handle->connected()` is the event `renegotiated`.
-- - Udp (src/panda/unievent/Udp.h, Udp.cc): the requests to send and `_sq_size`, with the queue of Queue.h
--   as it is between two calls of client code. A request is the list of the lengths of its buffers.
-- - BackendHandle (src/panda/unievent/Handle.h, BackendHandle.h): weak handles, whose handle of the
--   backend is destroyed by `reset` and created again when it is needed.
-- - Timer (src/panda/unievent/Timer.h, Timer.cc): pauses of a timer. `Backend` is the interface of the
--   backend's timer with the laws that are used; the time that the loop reads is an argument.
-- - Resolver (src/panda/unievent/Resolver.h, Resolver.cc): the requests of the resolver, its workers,
--   its queue, and what follows a callback. Requests and workers are numbers, `busy` gives the request
--   of a worker, and the answers of the cache are arguments. Since a callback may call anything,
--   Resolver/Requests.antt lets the calls and the rounds of the loop behind a callback come in any
--   order. Resolver/Reset.antt has `reset` with callbacks that begin nothing, whose loops have the
--   length of their list as fuel, which Resolver/Reset/Canceled.antt shows to be enough for the queue.
--   c-ares and the loading of addresses are not modelled.
-- - ResolverCache (src/panda/unievent/Resolver.h, Resolver.cc, AddrInfo.h): the cache of the resolver, a
--   list of rows in place of the hash table. The key and its comparison are parameters; an `AddrInfo` is
--   the list of addresses of an answer with the rest of it from the current one on.
-- - LaMetrics (src/panda/unievent/backend/LAMetrics.h): the load average of a loop, as a ring of ten
--   measurements; the load is the fraction that the code divides.
-- - Work (src/panda/unievent/Work.h, Work.cc): the states of a work in another thread, and its places in
--   the list of its loop.
-- - Fs (src/panda/unievent/Fs.h, Fs.cc): the calls that the library builds from those of libuv, which are
--   an interface `FileSystem`: `mkpath`, `remove`, `remove_all`, `truncate` by a path, `touch`. Calls that
--   change something are recorded. `mkpath` has the length of the path as fuel, which
--   Fs/Paths.antt shows to be enough, and `rmtree` takes fuel for its depth (Fs/Returns.antt).
-- - FsRequest (src/panda/unievent/Fs.h, Fs.cc): the asynchronous calls, a request over the work of Work.antt.
--   A call is a number, and what each call gives in the other thread is an argument; the steps of that
--   thread, which run the function that the work holds then, and of the loop are separate functions. Setting `after_work_cb` from within its own run is taken to
--   leave the run as it is.
--
-- Only Fs and the loops of Resolver/Reset.antt use fuel. Memory, threads, logging and reference counts
-- are not modelled.
pub mod BackendHandle
pub mod Base
pub mod Delayer
pub mod Fs
pub mod FsPoll
pub mod FsRequest
pub mod LaMetrics
pub mod Pipe
pub mod Queue
pub mod Resolver
pub mod ResolverCache
pub mod SslBio
pub mod SslFilter
pub mod Stream
pub mod StreamFilter
pub mod Streamer
pub mod Tcp
pub mod Timer
pub mod Udp
pub mod Work
