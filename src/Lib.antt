-- ===== src/Lib.antt =====
-- A client for HTTP/1.1 and HTTP/2 (go-http), modelled as far as its own logic goes: what is below
-- `net.Conn`, TLS, and the frame and header codecs of golang.org/x/net stay outside.
--
-- A request is prepared (internal/http/prepared.go), takes a connection from the pool of its host
-- (utils/netpool), and is exchanged on it by the HTTP/1 transport (internal/transport/http1, with the
-- chunked coding of internal/transport/chunked) or as a stream of an HTTP/2 connection
-- (internal/transport/h2c). The body of a response is read from the session, and closing it gives the
-- connection back to the pool.
--
-- - Base: tests on numbers, byte strings (lists of numbers below 256), 32-bit words and integers.
-- - Io, Strconv, Textproto: what the program uses of Go's standard library, by its documentation: readers
--   that give their bytes in any portions, writers that may fail, decimal numbers, header blocks. They
--   model no code of the repository.
-- - Chunked: internal/transport/chunked. Chunked.Writer is writer.go (`Write`, `CloseWithTrailer`),
--   Chunked.Reader is reader.go (`readChunkHeader`, `Read`). Chunked.Framing, Chunked.Decoding and
--   Chunked.RoundTrip are about both.
-- - Request: internal/http/prepared.go (`Prepare`, `updateBody` and the closures of `GetBody`) and the
--   types of internal/http/model.go. `url.Parse` is not modelled: its answer is an argument.
-- - Http1: internal/transport/http1. Http1.Utils is utils.go (`Cut`, `walkReverse`). Of http1.go,
--   Http1.Header is `readRawHeader` and `readHeader`, Http1.Write is `expectContentLength`,
--   `writeHeader` and `writeRequest`, Http1.Session is `Session.Read`, `ReadRaw`, `Close` and
--   `readResponse`, Http1.Session.Loops is the two goroutines of `Conn.Setup` for one session after the
--   other. Http1.Session.Steps is `Do`, `Release` and `Close` with these goroutines as steps of any number of
--   callers, which Http1.Session.Ordered and Http1.Session.Answering are about; Http1.Session.Reuse is
--   about a body that is closed before its end.
-- - Flow: internal/transport/h2c/flow.go (Flow.Inflow, Flow.Outflow) and `takeOutflow` of stream.go
--   (Flow.Take).
-- - Controller: internal/transport/h2c/controller. Controller.Frames is what the framer sends and reads
--   (framer.go); Controller.Closing is `GoAwayDebug`, the handler of GOAWAY and `Valid` of controller.go;
--   Controller.Serving is `Handshake` and `consumer` there, over any state that a connection keeps;
--   Controller.Pings is pinger.go and Controller.Fields `EncodeHeaders` of hpack.go. Controller.Limits is
--   what `init` of framer.go and hpack.go takes from the settings.
-- - Streams: Streams.Settings is controller/settings.go below internal/transport/h2c, and
--   Streams.Settings.Locking the settings of the peer behind their lock; Streams.Headers is
--   `WriteHeaders` of stream.go, Streams.Opening is `AssignStreamID`, `ReleaseStreamID` and the part of
--   the settings callback of conn.go that moves the windows. Streams.Lives is `CloseWithError` and
--   `Reset` of stream.go with the whole `Connection`, a `Link`; Streams.Dispatch and Streams.Handlers are
--   the handlers of `NewConnection` and the table of them; Streams.Runs has the steps of a connection's
--   life, in which handlers and calls follow each other. Streams.Locks is the order of two locks.
--   Streams.Cutting is `WriteHeaders` with its errors, and Streams.Greeting puts a `Link` under the
--   handshake of its controller. Streams.Body is `WriteRequestBody` of stream.go in rounds, Streams.Buffers is `bufPool` of utils.go.
--   Streams.Fitting is about the size of its frames, Streams.Padding about the padding of those received,
--   and Streams.Standstill is an upload beside the read loop.
-- - Transport: internal/transport/h2c.go (`WriteRequest`, `ReadResponse`, and in Transport.RoundTrips
--   `RoundTrip`), `ReadHeaders` of stream.go, and the errors of internal/transport/h2c/errors/errors.go.
-- - Dialer: internal/dialer. Dialer.Resolving is dns.go, where a map is a place in a store,
--   Dialer.Dialing is dial.go, with `Dial` as a whole in Dialer.Dials, Dialer.Proxying is proxy.go;
--   Dialer.Addresses is what they use of Go's net and net/url. Dialer.Clients is `CtxDo` and `UseDialer`
--   of internal/client.go and internal/helpers.go on dialers as values, Dialer.Sharing the same on
--   dialers as objects, with `Clone` of dialer.go and proxy.go. Dialer.Contexts is internal/trace.go, the
--   contexts of dns.go and the functions of internal/net.go.
-- - Netpool: utils/netpool. Netpool itself is pool.go and connection.go, Netpool.Group is group.go;
--   Netpool.Life has the steps that any number of callers take.
-- - Nettools: utils/nettools, `controlFDSet` of net.go and net_poll.go. Nettools.Selecting is
--   net_select.go, which Nettools.Selected is about, and Nettools.Choosing the choice between the two.
-- - Tests: runs at concrete inputs.
--
-- A Go function that changes its receiver takes the state and returns it. An error is a value, a panic a
-- constructor or `none`. int32 and uint32 keep their wrap-around; lengths of texts and counts of bytes
-- are natural numbers without a bound. Where an int64 is -1 for an unknown length, the model has `none`.
-- A Go map of headers is a list in one order; what depends on the order is stated for every order.
--
-- Fuel: `walkReverse` gets one round more than the text has bytes, and each round passes a comma or ends;
-- `readChunkHeader` two parts of a line, where one that fills the buffer has too many digits;
-- `bufio.Writer` one piece more than its text has bytes; `WriteHeaders` the length of the block, and each frame takes a byte. A caller that reads a
-- body to its end takes fuel as an argument, more than the length of the body.
--
-- `WriteRequestBody` gets a list of rounds, and one round more than the body has bytes is enough where it
-- ends at all.
--
-- Not modelled: the reading of a body that is coded as chunked twice, the two polyfills of `wrapTLS`
-- (internal/dialer/dial_tls_go17.go, dial_tls_go18.go), and the texts of errors but for those that are compared. The
-- handlers of a connection and its callers take turns: what two of them do at once is modelled only for
-- `AssignStreamID` beside a change of the peer's settings, for an upload beside the read loop, and for the locks of the settings. `Upgrade` and
-- `WaitAndClose` of the controller only panic.
pub mod Base
pub mod Flow
pub mod Io
pub mod Strconv
pub mod Textproto
pub mod Chunked
pub mod Request
pub mod Http1
pub mod Netpool
pub mod Nettools
pub mod Streams
pub mod Transport
pub mod Dialer
pub mod Controller
pub mod Tests
