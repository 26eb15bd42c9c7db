-- ===== src/Lib.antt =====
-- A model of Nightveil, a tunnel that carries TCP streams in ordinary-looking HTTP requests, and
-- theorems on it.
--
-- A client's proxy opens a connection through a transport (internal/transport), sends a CONNECT
-- frame (internal/protocol) and then relays bytes. The HTTP transport (internal/transport/xhttp)
-- uploads by POST requests and downloads by one long GET; on the server both meet in a session
-- (internal/session), which puts uploaded chunks in order and keeps a window of the downloaded bytes
-- for GETs that break and resume. A middleware (internal/middleware) may pad what is sent. A detector
-- watches round trips and throughput (internal/throttle); an adaptive responder, a canary and a
-- rotator of parameters go by what it reports.
--
-- The files, and what they model:
--   Prelude, with Tests, Lists, Pieces, Int, Wire, Outcome and Steps: Booleans, lists over native
--     numbers, Go's signed integers, encoding/binary, errors as values
--   Io: io.ReadFull and writers
--   Session/Download: internal/session/download_buffer.go, DownloadBuffer. Stream is the abstract
--     stream, Refine the refinement, Window what is kept
--   Session/Chunks, Session/Tunnel, Session/Error: internal/session/manager.go, Session and its
--     methods. Upload, Drain and Closing are about order, completeness and Close
--   Session/Manager: internal/session/manager.go, Manager with GetOrCreate, Get, Remove, Count and
--     one pass of cleanupLoop
--   Protocol/Framing: internal/protocol/framing.go, WriteFrame and ReadFrame
--   Protocol/Decimal, Protocol/Quad, Protocol/Address: internal/protocol/framing.go,
--     EncodeConnectPayload and DecodeConnectPayload
--   Protocol/Handshake: internal/protocol/client.go and internal/protocol/server.go
--   Protocol/Datagram: internal/protocol/udp.go, WriteMessage and ReadMessage
--   Auth: internal/crypto/auth/x25519.go. Crypto has the parameters and the layout of a token, Token
--     the client, Validate the server
--   Middleware/Padding: internal/middleware/padding/padding.go
--   Transport/Manager: internal/transport/manager.go
--   Middleware/Chain: internal/middleware/middleware.go
--   Middleware/Jitter: internal/middleware/jitter/jitter.go
--   Middleware/Shaping: internal/middleware/shaping/shaping.go
--   Transport/Pool: internal/transport/pool.go, calls of Dial and the refill in any order
--   Transport/Reconnect: internal/transport/reconnect.go, Dial
--   Transport/Quic: internal/transport/quictun/obfuscate.go and internal/transport/quictun/hopping.go
--   Transport/Xhttp/Config: internal/transport/xhttp/config.go
--   Transport/Xhttp/Client: internal/transport/xhttp/client.go, clientConn. EndToEnd joins its packet
--     mode to the server's handler and the session
--   Transport/Xhttp/Upload: internal/transport/xhttp/server.go, ServeHTTP and handleUpload
--   Transport/Xhttp/Multiplex: internal/transport/xhttp/multiplex.go
--   Transport/Xhttp/Conn: internal/transport/xhttp/conn.go
--   Transport/Xhttp/Download: internal/transport/xhttp/server.go, handleDownload, with the resuming
--     GETs of internal/transport/xhttp/client.go
--   Transport/Xhttp/Accept: internal/transport/xhttp/server.go, tryEmit and Accept for one session
--   Transport/Xhttp/RateLimit: internal/transport/xhttp/ratelimit.go
--   Proxy/Socks: internal/proxy/socks5.go
--   Proxy/UdpRelay: internal/proxy/udprelay.go, the server side
--   Security/Sni, Security/Peek: internal/security/reality.go, SNIExtract and PeekConn
--   Throttle/State, Throttle/Detector: internal/throttle/detector.go
--   Throttle/Adaptive: internal/throttle/adaptive.go
--   Throttle/Canary: internal/throttle/canary.go
--   Throttle/Rotator: internal/throttle/rotator.go
--
-- A method is a function from the old state to the new one and its results; an error is a value.
-- Each critical section is one step, and concurrency is a sequence of steps in any order. A call
-- that blocks says that it waits. Go's int and int64 are integers where the code lets them be
-- negative, else native numbers, and stay below 2^63; conversions to uint16 and byte are written out.
--
-- Loops are structural recursion. Those that take fuel have enough of it: the pieces of a write have
-- the number of bytes, of which each piece takes one at least; the multiplexed writer likewise, where
-- the size of a chunk is positive; the walk over TLS extensions has the number of bytes and one more,
-- of which each round takes four; a dial with a limit on its retries has that limit. The passes of a
-- loop that waits for a timer, a request or a signal are the elements of a list of events.
--
-- Parameters: how the runtime grows a slice, the operations of float64, the random source; the
-- writer below a frame, with the law that a write without an error has appended all its bytes;
-- X25519, HKDF, the AEAD, base64 and BLAKE2b, with laws that say that decoding undoes encoding and
-- how long the results are; strconv, ParseIP, IP.String and the resolver of names, which has no
-- address for a port above 65535; what the body of the answer to a GET for an offset gives; what other
-- writes and changes of size do to a semaphore while a write waits or posts.
--
-- Not modelled: sockets, TLS and QUIC libraries, the key helpers of the authentication, the copy loops
-- of the relay and of the stream upload, the client side of the UDP relay, cover traffic,
-- configuration files and URIs, the management API and the command line.
pub mod Prelude
pub mod Io
pub mod Session
pub mod Protocol
pub mod Auth
pub mod Middleware
pub mod Transport
pub mod Proxy
pub mod Security
pub mod Throttle
