-- ===== src/Lib.antt =====
-- A model of gsyncio, the Python package multiloop: synchronisation primitives and channels that
-- work across the event loops of several threads, scopes and contexts of cancellation, and the
-- HTTP/1.1, WebSocket and WSGI sides of its server.
--
-- The parts and their files:
--   Common                shared helpers: tests on numbers, lists, the ordered dictionary of
--                         collections (Common.OrderedDict), the exceptions that the code raises and the
--                         result of a call that may raise, and systems of interleaved steps with what
--                         is reachable in them (Common.Transition).
--   Sync                  src/multiloop/_sync.py: Semaphore, Lock, CapacityLimiter, Event, Condition,
--                         Barrier, one module each, and the loop that wakes waiters (Sync.Wake).
--   RwLock                src/multiloop/rwlock.py, AsyncRWMutex, on src/rwlock.rs (RwLock.Raw).
--   Once                  src/multiloop/primitives.py, AsyncOnce.
--   WaitGroup             src/multiloop/primitives.py, AsyncWaitGroup on src/waitgroup.rs, and the
--                         coroutines that it tracks (WaitGroup.Track).
--   Channel               src/multiloop/primitives.py, Channel and the probes of select_channel, on
--                         src/channel.rs (Channel.Raw).
--   CancelScope           src/multiloop/_cancel.py: the scopes of a task and its count of requests.
--   AsyncContext          src/multiloop/context.py: the tree of contexts.
--   Wsgi                  src/multiloop/wsgi.py: the stream of a request's body (Wsgi.Stream) with its
--                         feeder (Wsgi.Feed), the chunked coding (Wsgi.Chunked, Wsgi.Hex), the response
--                         (Wsgi.Response), and the environ and admission (Wsgi.Environ). The response's
--                         chunks use the coding that the request's reader takes.
--   WebSocket             src/multiloop/_websocket.py: the bytes of a frame (WebSocket.Frame) and the
--                         loop that reads frames and makes messages of them (WebSocket.Reader),
--                         and the session that an application uses (WebSocket.Session).
--   Http11                src/multiloop/_http11.py: the response that an application sends
--                         (Http11.Response) and the connection that serves pipelined requests
--                         (Http11.Protocol).
--
-- How the code corresponds to the model. An object is a record with the attributes that its
-- methods change, under their names. A method is a function from the old record to the new one,
-- with what it returns, raises or schedules: `release` of Semaphore is `release`, and so on. A
-- coroutine that can be suspended is cut at its `await`: `acquire` or `wait` up to it, `finish` or
-- `resume` for what follows, and `cancel_waiter` or `cancel_wait` for the branch of a
-- cancellation. A task, an asyncio event or a future is known by a number. Whether a loop is
-- closed, which makes `call_soon_threadsafe` raise, is a function from loops to Boolean values
-- that may change from call to call.
--
-- Several tasks are a transition system: each action is one critical section of the code, run by
-- any task at any time, and a cancellation can strike a task at every place where it waits, also
-- after its wake-up was scheduled. Semaphore, Lock, CapacityLimiter, AsyncRWMutex, AsyncOnce,
-- Channel and AsyncContext have such a system in their System modules. The others have histories
-- of calls. The mutex of each object, a threading.Lock or the lock inside the compiled extension,
-- makes the actions atomic, and is not modelled itself.
--
-- Loops over waiters are recursion on the queue. The loop of the WebSocket reader takes fuel, one
-- unit for each frame; every frame takes at least one byte, so fuel above the number of bytes is
-- enough. The lengths of frames keep the widths of the wire: 7, 16 and 64 bits. In Wsgi, reading a
-- chunked body takes more fuel than bytes in the buffer and to come, since every round takes at
-- least a line break; the feeder takes more fuel than bytes missing; readlines takes more than the
-- bytes of the stream. A call of AsyncContext.cancel that nothing disturbs takes as much fuel as
-- there are contexts, which bounds the depth of their tree; in its System module the call is cut
-- into its critical sections and needs none.
--
-- Parameters stand for what the code calls: the UTF-8 decoder and encoder, and the two wire
-- formats of the compiled HTTP connection, of which the first may raise, with its events. The HTTP
-- parser's state is not modelled: it may report any events in any order. What arrives from a
-- channel or a connection is a list of the pieces that the reads give, with the end behind them.
--
-- Not modelled are task groups, the thread pool, the ASGI adapter, the lifespan, the command line
-- and the metrics; of the WSGI adapter the parser of a request's head, timeouts, and a connection
-- that breaks while it is written; of the HTTP/1.1 response several tasks that send parts of one
-- response at the same time; of Channel the fallback without the compiled object and the second
-- phase of select_channel; of AsyncWaitGroup the wrappers holding and wrap, which are add and done
-- around a body; of CancelScope the calls from another thread, which are the same calls at a later
-- time; the checks of a WebSocket's request. Clocks, floats, sockets and logging are left out
-- altogether. Of the WebSocket reader the branch without the compiled parser is modelled, of
-- AsyncRWMutex and Channel the one with the compiled state machine. Where a record or a file
-- models one class only, the members that only print or count are left out.
pub mod Common
pub mod Sync
pub mod WebSocket
pub mod Http11
pub mod RwLock
pub mod Once
pub mod Channel
pub mod Wsgi
pub mod CancelScope
pub mod AsyncContext
pub mod WaitGroup
