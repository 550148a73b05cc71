-- ===== src/Lib.antt =====
-- The programs of lab3 and the router that they talk through: an HTTP file server and a client that
-- exchange requests and responses as packets over UDP, with sequence numbers, acknowledgements and
-- retransmission; the file server and the client of lab1-2, which do the same over TCP; and the
-- small programs of handout.
--
-- The parts and their files:
--   Packet    lab3/lib/packet.go: Packet, Raw (`raw`), ParsePacket (`parse_packet`).
--   Router    handout/router/source/router.go: parsePacket, Raw, send, process, the loop of main
--             (`receive`) and the timers of time.AfterFunc (`fire`).
--   Window    lab3/lib/windownElement.go and the slices of pointers that serve as windows.
--   Endpoint  what HttpServer (lab3/httpfs/httpfs.go) and HttpClient (lab3/httpc/httpc.go) share:
--             sendPacket, the sending part of send, retransmission, the DATA and DELIVER branch of
--             receive, checkForDeliver, getPackets.
--   Server    lab3/httpfs/httpfs.go: receive, establishConnection, reset and the loop of main.
--             Server/Restart compares the server after reset with the server at its start.
--   Client    lab3/httpc/httpc.go: receive, establishConnection, send, and the texts that get and
--             post send. What the server answers is handed back as bytes. Client/Command is the
--             command line and what it does with a response, with the transport as a parameter, and
--             Client/Transport gives it the turns of the client for this. Client/Stops has its panics.
--             Client/Methods has the client's own text of checkForDeliver, getPackets and sendPacket.
--   Http      lab3/httpfs/httpfs.go: makeResponse, handleGet, handlePost, verifyFilePath,
--             parseHttpRequest, handleRequest, on texts as bytes. Http/Files is the file system they
--             use, a record of its operations with the law that the theorems need; net/http,
--             encoding/json and the clock are the record `Library`. Http/Setup is the directory that
--             main sets up.
--   Link      the transport from the server of lab3 to the client over the router and a network that
--             loses, repeats and reorders: the invariant of the two endpoints, the wait at the end
--             of send, and the moves that lead to its end.
--   Network   the client and the server of lab3 with the router between them, all goroutines of both
--             in any order, over a network that loses, repeats and reorders: the invariant of both
--             programs and of the datagrams under way, from the starts to the end of a connection, and
--             in Network/Completes a schedule without losses for every request and response.
--   Exchange  the turns of the client of lab3 in one exchange, and what the network delivers of a
--             text.
--   TcpExchange  the client and the server of lab1-2 together, on a POST and a GET.
--   TcpServer lab1-2/httpfs/httpfs.go: handleConn (`read_loop`, `answer`), handleGet, handlePost,
--             verifyFilePath. TcpServer/Agreement sets it beside Http, TcpServer/Setup is the
--             directory that its main sets up.
--   TcpClient lab1-2/httpc/httpc.go: get and post (`fetch`, which has what they share), the handlers
--             and main (TcpClient/Main). TcpClient/Outcome is what a call does, log.Fatal
--             included; the network, the files and package flag are the records `Net` and
--             `FlagParser`.
--   Handout   handout/timeserver.go, timeclient.go, echoserver.go and echoclient.go.
--   Text      the functions of Go's strings and strconv that the programs call.
--   Base      the helpers: Boolean tests, lists with Go's indices, bytes, and `Go`, the outcome of
--             Go code: a value, a run-time panic, or a loop that is out of fuel.
--   Tests     runs at concrete data.
--
-- State is passed explicitly. A datagram that a program writes is appended to its list `written`;
-- all go to the router, and a write that fails is only logged by the source. The goroutines of a
-- program take turns: an event is one turn, and a turn is one round of the goroutine's loop. So a
-- round is atomic here, and what two rounds do to one slot between each other's reads and writes is
-- not modelled. A timer is a pair of flags, and its expiry is an event.
--
-- Bounds: `%` on the 32-bit numbers is written out. The loop of send has the length of the request
-- as fuel, which is enough since each round takes 1013 bytes. The windows have 1024 slots. The
-- router's delay of 0 stands for all that are not positive. A redirect of the TCP client costs one
-- unit of fuel; the code has no bound on redirects. The read loops over TCP take the reads of a
-- connection as a list, and end with it. A run of Network is followed up to the turn of the server's
-- main that ends the first connection.
--
-- The text that net.IP prints for four bytes and the port is an address that ResolveUDPAddr reads
-- back, so that parsing an address has no error. A packet's texts for the log are left out, as are
-- the servers' flags, log files and the set-up of sockets; deadlines of a connection are reads that
-- fail.
pub mod Base
pub mod Packet
pub mod Router
pub mod Window
pub mod Endpoint
pub mod Server
pub mod Client
pub mod Text
pub mod Http
pub mod Link
pub mod Network
pub mod Exchange
pub mod TcpServer
pub mod TcpClient
pub mod TcpExchange
pub mod Handout
pub mod Tests
