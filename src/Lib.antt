-- ===== src/Lib.antt =====
-- A verification library of the beast-examples HTTP server (src/ of the repository).
--
-- The server accepts connections, runs one session on each, resolves the target of a request to a
-- handler, and sends the handler's response through the queue of the session. Handlers serve JSON
-- (an arbitrary function behind one wrapper) and previews. Clients post pictures; a cache collects
-- the pictures of each object, and hands the views of complete objects to the store of previews.
--
-- The files, and the code they model:
--   Session, Session/*    src/HttpSession.cpp: the queue of responses, the operations of a session,
--                         and (Session/Runs) the event loop that completes pending operations
--   JsonApi, JsonApi/*    src/JsonApiRequestHandler.cpp: `handleRequest` and its `catch` clauses
--   Utils                 src/Utils.cpp: the replies with a JSON body, and `isDirectory`
--   Picture, Picture/*    src/PostPicture.cpp, src/democlient.h: a picture and its JSON form
--   Preview, Preview/*    src/PicturePreviewHandler.cpp: the stored previews, their list, and
--                         requests for a picture
--   Cache, Cache/*        src/PictureCache.cpp: `cleanup`, `addPicture` and `process`
--   Static, Static/*      src/StaticRequestHandler.cpp: files below the document root
--   Sampling, Sampling/*  `SamplingMock` of src/main.cpp and the handlers that call it
--   Websocket, Websocket/* src/WebsocketSession.cpp: an upgraded connection and its messages
--   Listener, Listener/*  src/HttpListener.cpp: its constructor and the accept loop
--   Server, Server/*      src/HttpUriRouter.cpp: `resolve`; src/main.cpp: `main`, the table of routes
--                         and the handlers that post and list pictures
--   Client, Client/*      src/HttpClient.cpp, src/democlient.cpp, src/testclient.c: posting a picture
--   App, App/*            src/main.cpp, the whole server: the handlers behind the table of routes with
--                         the state that they share, all sessions, and the rounds of the samplings
--   Json, Http            the interfaces of nlohmann::json and Boost.Beast, as far as they are used
--   Common, Common/*      tests, lists, exceptions as values, association lists, decimals
--
-- Functions keep their names in snake_case; an operation takes the state of its class and returns
-- the new one. An exception is a value of `Result`. Where the code is called at a time, or at
-- random, the time or the outcome is an argument. What lies outside the repository is a parameter:
-- the JSON library (with its documented laws where a theorem needs them), base-64, the splitting of
-- paths, lexical conversion, the generator of identifiers. Integers of the source that can wrap
-- round are taken modulo a power of two.
--
-- App puts the parts together. Its `handler` finds a route for a target and runs the handler of that
-- route on the shared state; Session is used with this handler. In App/Sessions an event of any of the
-- sessions, a connection, or a round of a sampling is one step. What lies outside is the record
-- `Outside`; the clock and the generator of identifiers give one value to each request. App/Framing
-- and App/Framed compare the responses of a session with its requests; App/Finishing counts the rounds
-- of a sampling, and App/Provenance collects the requests that were read.
--
-- Four loops run on fuel. The digits of a number (`to_string`) get one unit more than the number,
-- which has no more digits than that. The eviction of previews (`trim`) gets one unit for each
-- identifier; every round removes one. The loop over directories (`find_index`) gets one more unit
-- than a path has characters at most, and every round appends some. The thread of a sampling (`run`)
-- may go on for ever; its theorems say when it ends, and with how much fuel.
--
-- The code runs on several threads. A session and a websocket session have a strand, and their event
-- loops run one handler at a time. `addPicture` takes its mutex three times: Cache/Threads has a step
-- for each critical section, and any number of threads. Sampling/Threads has the steps of the thread
-- of a sampling, between which a `stop` may come, Sampling/Requests the two steps of a request to
-- start one, and Preview/Threads the two of a call that makes a preview. Where a mutex is held, a
-- step is not divided. App takes a whole request as one step, but for the test of a request to start
-- a sampling, which may have been made before a start that it did not see (`early` of `Outside`).
-- What else happens between two critical sections of one request is only in the modules above.
--
-- Memory that nothing has written, or that lies behind a buffer, is read as the value `unknown`, which
-- is no byte: behind the data of a picture that are shorter than its size, and behind the first part
-- of a websocket's buffer. A websocket has its own status beside that of the session's socket, and
-- it may turn at any time. The client's theorems suppose a network that reaches the server under the
-- one address where it listens, and hands it as much of a body as the request announces.
--
-- Not modelled: logging, the memory of a picture's buffer beyond its overrun, increments of one
-- variable by two threads at once, the signals that stop the event loop, and the copies of other
-- libraries.
pub mod Common
pub mod Json
pub mod Http
pub mod Utils
pub mod JsonApi
pub mod Session
pub mod Listener
pub mod Picture
pub mod Preview
pub mod Cache
pub mod Static
pub mod Sampling
pub mod Websocket
pub mod Server
pub mod Client
pub mod App
