-- ===== src/Lib.antt =====
-- The search server of searchserver/: an HTTP server over a document index. A model of its parts
-- in files of their own, and theorems about them.
--
-- A connection's bytes go through the request parser to a handler, which answers from the index,
-- from the files, or through the embedding service; changes of files change the index. Connections
-- run as tasks of a thread pool.
--
--   Base, Map, Text, Exception, FileSystem: what the source uses of the C++ library. A string is the
--     list of its bytes, an unordered map an association list, an exception a value. The file system
--     is an interface; theorems that rely on its behaviour name it as a hypothesis.
--   InvertedIndex: searchserver/InvertedIndex.cpp. `tokenize` is Tokenize, `build` Build, `add_file`
--     AddFile, `remove_file` RemoveFile, `search_and_rank` SearchAndRank; `Index` is m_count.
--   HttpRequest: searchserver/HttpRequest.cpp. `parse_request` is ParseRequest, `split_terms` is
--     SplitTerms.
--   HttpResponse: searchserver/HttpResponse.cpp. `make_response` is MakeResponse.
--   StaticFile: searchserver/StaticFile.cpp. `static_get`, `static_put` and `static_delete` are
--     StaticGet, StaticPut and StaticDelete, `check_within_root` is CheckWithinRoot.
--   ThreadPool: searchserver/ThreadPool.cpp. `step` is one critical section or the end of one task,
--     `run` a schedule of them.
--   Socket: the outcomes of the calls that read a connection, which the system decides.
--   HttpServer: searchserver/HttpServer.cpp. Startup has the constructor and the start of Run,
--     Listener the accept loop of Run and SigintHandler, Serving Run as a whole, Connection has SendAll
--     and HandleClient, Reading has ReadHeaders, ReadBody and ReadRawRequest, Routes has
--     HandleGetRequest, HandleStaticMutation and the choice of a handler in HandleClient, Escapes has
--     JoinTerms, JsonStr and HtmlEscape, Fusion has RrfMerge over the interface of float in Float, and
--     Service has the searches of the handlers over the vector client. `Server` holds what the handlers
--     share: files, index, and the calls to the service. Mutations has HandleStaticMutation on several
--     workers at once, in an order that a schedule gives; Interleaved is about the index meanwhile.
--   VectorClient: searchserver/VectorClient.cpp. `post`, `delete`, `search`, `add_doc`, `remove_doc`
--     and `ask` are its methods on a connection, given as the outcomes of its reads and writes.
--     Client has Connect and the class, Rows what the service writes for ParseTsv and Ask.
--   SearchClient: searchserver/searchclient.cpp. `client_text` is the request of SendHttpRequest,
--     Transport has SendHttpRequest, Answer has ParseStatus and what main makes of a response, Shell
--     the commands and the loop of main, Main its arguments. Requests is about the requests for
--     documents as the server parses them.
--   ServerMain: searchserver/searchserver.cpp. `launch` has the tests of main, `serve_main` main up to
--     the accept loop.
--   EndToEnd: the client's commands with the server behind its connections.
--   The modules called Interface are the classes of the headers with what their comments promise, as
--     records of operations and laws, with the modelled code as their instance.
--   Tests: runs of the model, and each theorem at an input that meets its hypotheses.
--
-- The loops of the source are recursions on the text or list that they go over, and need no fuel;
-- `digits`, the loop of std::to_string, has `n + 1` rounds for the number n, and more change nothing.
-- The loops that read a socket have as many rounds as the connection has bytes and outcomes together,
-- at least as many as the calls of read that give anything.
-- The counts of the index are C++ ints; they are plain numbers here, with a bound by the size of the
-- file. The order of an unordered map, and of equal scores in a sort, is left open by C++: the model
-- picks one, and the theorems about results go by look-up, not by place.
--
-- The loop of HandleClient has more rounds than its connection has bytes and outcomes, and more change
-- nothing. Run and SigintHandler are steps on the global state, in an order that a schedule gives; the
-- handler runs on the thread of Run, as a whole, or on another one, a step at a time. `accept` may block
-- for any number of steps, but not on a socket that has been closed; that a close on another thread
-- ends an accept that already waits is more than Linux promises.
--
-- Not modelled: what goes to the standard output of the server and to the standard error; the socket
-- options and the conversion of addresses, which are system calls; the Python service in
-- embed_service/, the script in eval/, the unit tests, and the copy of Catch2. The lock of the index
-- is not there either: a request is handled as one step, but for the changes of files, which
-- Mutations also has as steps. There, StaticPut is two steps on the files, one up to the opening,
-- which empties the file, and one for its write; StaticDelete is one step.
pub mod Base
pub mod Exception
pub mod Map
pub mod Text
pub mod HttpResponse
pub mod HttpRequest
pub mod FileSystem
pub mod StaticFile
pub mod ThreadPool
pub mod Socket
pub mod HttpServer
pub mod VectorClient
pub mod SearchClient
pub mod ServerMain
pub mod EndToEnd
pub mod InvertedIndex
mod Tests
