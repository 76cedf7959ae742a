-- ===== src/Lib.antt =====
-- A video and image streaming system: a gateway in Go takes frames over HTTP and WebSocket from
-- registered users, hands them to processors over gRPC and records the runs in PostgreSQL; a
-- processor in Go applies one of four filters to each frame.
--
-- The parts and the files that model them:
--   Prelude   shared names: Boolean tests, lists, Go's signed integers with their wrap-around, texts
--             as lists of bytes, and results that carry an error's message.
--   Go        what the code uses of Go's standard library: splitting and joining of texts, decimal
--             and hexadecimal texts, Base64 in its URL form without padding and its standard form.
--   Auth      gateway/internal/auth/token.go: `Issue` is `issue`, `Verify` is `verify`,
--             `HashPassword` and `CheckPassword` are `hash_password` and `check_password`.
--   Pool      gateway/internal/grpc/client.go: the pool of connections, with round-robin and a fixed
--             processor (`get`, `set_sticky`), its opening and closing, and the calls on a client.
--   Metrics   gateway/internal/metrics/metrics.go: the calls on the metrics as a log of updates, the
--             metrics that are registered (Registry, `new_metrics`), and the rate limiter (`allow`,
--             `middleware`, with the ticker's tick as `refill`).
--   Storage   gateway/internal/storage/postgres.go: the statements, over a database that is an
--             argument, in Accounts (users) and Runs (the history); Connection, the handles that
--             `Open` and `Close` open and close.
--   Media     gateway/proto/streaming.pb.go: the messages.
--   Http      gateway/internal/http: Session (registration, login, tokens), Frame (one frame over
--             HTTP), Stream (a body of many frames), Socket (frames over a WebSocket), Admin (health,
--             statistics, routing), Runtime (the report on memory), Pages.
--             A handler takes a request and the state that all requests share (`World`: the pool, the
--             metrics, the database) and gives a response and the state after it.
--   Processor processor-go/cmd/server/main.go: Blur and Filters (the four filters), Loops (loops over
--             buffers), Picture (frames pixel by pixel), Server (`process_chunk`, `get_stats`,
--             `process_media_stream`), Report (the values of the endpoint /runtime, and in Races the
--             counters that concurrent calls increase while it reads them), Registry (the Prometheus
--             metrics).
--   Stream    the goroutines of a streamed request, of `HandleProcessStream` and `ProcessStream`, as
--             steps on the channels that they share, in any order; Http/Stream takes what the loop
--             that answers meets as a list, and Stream/Answers relates the two.
--   System    a gateway whose clients are connected to such processors: what the answer to a frame
--             holds, and those of a streamed body (Stream) and of a WebSocket (Socket); History, from
--             a frame to the runs that its user sees.
--   Gateway   gateway/cmd/server/main.go: the routes, the middlewares, the wait for the database; App,
--             the whole gateway as one function of a request and the shared state (`serve`), with
--             App/Moves, the changes that a request may make, of which every handler is a sequence;
--             Start, how `main` makes the parts from its settings, and Shutdown, what it closes.
-- A directory beside a file holds its proofs; the modules called Tests hold runs and the theorems at
-- concrete inputs.
--
-- How the code is modelled. A method that changes its receiver returns the new state. An error is a
-- value of Result with its message; a panic is a constructor of its own or `none`. Times are numbers
-- of nanoseconds since 1970, and a request's reading of the clock and of the random source is an
-- input. Numbers of a fixed width wrap where the code computes with them (`int64`, `int32`); widths
-- and heights are signed. Loops over a range are `for_range`, by recursion on the number of rounds,
-- so no loop needs fuel but two: the printing of a number, whose fuel is the number itself, and the
-- cutting of a body into frames, whose fuel is the body's length, since each round takes a byte.
--
-- Arguments of the model, since their code is not here: HMAC-SHA256 and SHA-256, whose digests are
-- bytes; PostgreSQL, where an INSERT of a user gives a row that a SELECT by the name finds, a name is
-- unique, no statement of the code removes a row, a run whose values are of the columns' types is
-- inserted if its user exists and the database answers, and the newest run of a user then stands
-- first; the driver's handles; the decoders of JSON; the gRPC calls and their streams, of which System asks that
-- a call gives the handler's result if no connection breaks, it takes less time than the handler's
-- timeout (30 seconds for a frame over HTTP, 5 for one over a WebSocket), and its messages are within
-- the limit of 100 MiB that client and server set; the arithmetic of floats,
-- of which nothing is assumed.
--
-- A Go map of the processors' health is a list in the order of its keys, in which it is written as
-- JSON. The buffers that a processor takes from its pool of kernels are counted until they are put
-- back; which buffer the pool gives is an input of the call. A streamed answer whose client's channels
-- give no end is a value of its own, and so is the goroutine of the rate limiter that is going to
-- panic.
--
-- Not modelled: the cleaning of a path and the redirects of `http.ServeMux` (the paths of the requests
-- are clean), the HTTP error that a refused upgrade to a WebSocket writes, the flags, the environment and the signals of the two programs, the page of the
-- Prometheus metrics, headers other than the cookie, the text of the HTML pages, the generated code,
-- the clients that measure a running system, and the processor in C++.
pub mod Prelude
pub mod Go
pub mod Auth
pub mod Pool
pub mod Metrics
pub mod Storage
pub mod Media
pub mod Http
pub mod Processor
pub mod Stream
pub mod System
pub mod Gateway
