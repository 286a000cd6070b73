-- ===== src/Lib.antt =====
-- An instant-messaging server over TCP. A connection reads bytes from its socket into an input buffer
-- and hands the buffer to the packet codec. The codec cuts packets off it (a 44-byte header and a
-- payload with a checksum) and hands each to the server, which reads the payload (JSON, or protobuf
-- where it is built in) by the command, and answers or passes messages on through the message store.
-- Packets to send go through the output buffer of the receiver's connection.
--
-- Files and the code they are about:
-- - Common, Common/*: lists, words of 16, 32 and 64 bits, bit operations and dictionaries.
-- - Buffer, Buffer/*: src/codec/buffer.h and buffer.cpp. A buffer is its bytes with the two
--   indices. Every operation is a function (append, retrieve, make_space, read_fd, ...); Contents has
--   the invariant, Refine the queue of bytes that a buffer implements.
-- - ByteOrder, ByteOrder/*: the conversions of src/base/util.cpp, over htons and its siblings.
-- - Protocol, Protocol/*: src/codec/protocol.h and protocol.cpp: constants, commands, flags, the
--   checksum (calc_crc16) and the message structs (Messages).
-- - Header, Header/*: WriteHeader and ReadHeader of src/codec/codec.cpp.
-- - Codec, Codec/*: Codec of src/codec/codec.cpp: pack, parse_header, parse_payload, and on_message,
--   whose loop runs on fuel: Termination shows how much is enough.
-- - Serializer, Serializer/*: src/codec/messageSerializer.cpp over nlohmann::json, which is the record
--   JsonLib of operations and documented laws. Overloads has the fifteen pairs as two functions.
-- - Connection, Connection/*: src/net/tcpConnection.cpp on its loop thread. The answers of
--   read and write are arguments, callbacks are events; Lifecycle has the order of states.
-- - Loop, Loop/*: src/net/eventLoop.cpp: the functors and the eventfd; Steps has the loop's thread, its
--   signal handlers and the other threads step by step, Wakeups is about when the loop may sleep.
-- - Poller, Poller/*: src/net/channel.cpp and epollPoller.cpp over epoll_ctl. Watching has what each
--   call does to a registration, Calls the calls of a channel in a row.
-- - Store, Store/*: InMemoryMessageStore of src/storage/messageStore.cpp, its maps as dictionaries.
-- - Breaker, Breaker/*: src/infra/circuitBreaker.cpp, the clock being an argument.
-- - Heartbeat, Heartbeat/*: src/service/heartbeatService.cpp: which connections are alive. Check is
--   checkHeartbeat.
-- - Messaging, Messaging/*: src/service/messageService.cpp over the interface IMessageStore (Store);
--   the store in memory implements the interface. Broadcast and Redelivery are the two parts of it that
--   reach other users and try again. A turn of its retry thread is a call.
-- - Auth, Auth/*: src/service/authService.cpp as built without USE_REDIS.
-- - Overload, Overload/*: src/service/overloadProtectService.cpp and src/infra/rateLimiter.cpp, over a
--   type of doubles.
-- - Routing, Routing/*: src/service/routingService.cpp over the Redis client's operations.
-- - Redis, Redis/*: src/base/redisClient.cpp over the functions of hiredis; Keys has setex, del and get
--   against a server.
-- - Server, Server/*: src/server_full.cpp: Payload the decoders and encoders, Packets the packet
--   callback, Tasks what the workers run, Connections the other callbacks. Replies, Answers, Debts and Drain
--   show that requests are answered, Access what a packet may cause, Gates the breaker and the counter.
-- - MySql, MySql/*: src/storage/mysqlClient.cpp over the functions of the MySQL library, which are the
--   record Mysql; Text, Messages, Deliveries and Sessions the repositories, whose statements are texts;
--   MessageStore, Marks and Pending MySqlMessageStore. Logged keeps the statements that are sent;
--   Statements, Transactions, Calls and Written are about them, Cursors about the numbers in memory,
--   Numbers and RoundTrip about what is read back.
-- - Metrics, Metrics/*: src/infra/metricsRegistry.cpp over a type of doubles; Buckets is about the
--   histograms.
-- - Config, Config/*: src/base/config.cpp over the lines of a file.
--
-- Numbers are natural numbers, with the wrap-around of an unsigned type written out where the code
-- can reach it; times are milliseconds that are not negative.
--
-- Not modelled: threads and locks (each operation is one step, but for the loop's functors), the
-- calls of a connection from other threads, the system calls of src/net/tcpServer.cpp, the start-up
-- of src/server_full.cpp and the older src/server.cpp, what MySQL and Redis do, an epoll_ctl that
-- fails, logging, tracing, the HTTP endpoint of the metrics, the generated protobuf classes, the
-- Windows branches.
pub mod Common
pub mod Buffer
pub mod ByteOrder
pub mod Protocol
pub mod Header
pub mod Codec
pub mod Serializer
pub mod Connection
pub mod Store
pub mod Breaker
pub mod Heartbeat
pub mod Messaging
pub mod Auth
pub mod Overload
pub mod Routing
pub mod Server
pub mod Config
pub mod MySql
pub mod Loop
pub mod Poller
pub mod Redis
pub mod Metrics
