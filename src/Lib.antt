-- ===== src/Lib.antt =====
-- rust-mq: the MQTT 3.1.1 packets, their reader and writer, and the client.
--
-- The program has three crates and a command. mqtt3 has the data types of the protocol, the reader
-- (`MqttRead`) and the writer (`MqttWrite`) of packets, topics and messages. mqttc has the client: a
-- state behind `&mut self`, whose methods write packets to a connection, read packets from it and
-- handle them, and keep messages of QoS 2 in stores. netopt has the connection of the client: a buffered
-- reader and writer on a stream, which is a socket, a socket with TLS, or a mock in memory. The command
-- mqttc reads its command line into a publish or a subscribe command and runs that by means of the
-- client.
--
-- The files and the code:
--   Base          names shared by all files: native numbers, tests, lists measured by them, bits of a
--                 byte (Base/Bits), binary digits (Base/Digits), UTF-8 (Base/Utf8), maps as
--                 association lists (Base/Maps)
--   Outcome       Rust's `Result`, and actions on a state: an outcome is a value, an error that keeps
--                 the state, a panic, or `stuck`, which only a model that is out of fuel gives
--   Mqtt3/Errors, Protocol, Qos, PacketType, ConnectReturnCode, PacketIdentifier, Header
--                 mqtt3/src/error.rs and mqtt3/src/lib.rs
--   Mqtt3/Packet  mqtt3/src/mqtt.rs
--   Mqtt3/Stream, Mqtt3/Read
--                 mqtt3/src/read.rs; a stream is the list of the bytes to come
--   Mqtt3/Write   mqtt3/src/write.rs; the writer adds bytes to the list of those written
--   Mqtt3/Codec   the reader against the writer, packet by packet
--   Mqtt3/Accept  the reader on any bytes
--   Mqtt3/Topic   mqtt3/src/topic.rs
--   Mqtt3/Message mqtt3/src/msg.rs
--   Mqttc/Errors, PubOpt, Store, Sub
--                 mqttc/src/error.rs, `PubOpt` of mqttc/src/lib.rs, mqttc/src/store.rs with
--                 `LocalStorage` of src/client/command/mod.rs, mqttc/src/sub.rs
--   Mqttc/Network what the client asks of netopt, as a record of operations on a state
--   Mqttc/Options `ClientOptions` of mqttc/src/client.rs
--   Mqttc/Client  `Client` of mqttc/src/client.rs: its state, `_write_packet`, `_flush`, `_next_pid`,
--                 `_unbind`, `_normalized`, `ping`
--   Mqttc/Client/Outgoing
--                 `_publish`, `_subscribe`, `_unsubscribe`, `complete` and the trait `PubSub`
--   Mqttc/Client/Incoming
--                 `_parse_packet`, with a function for each arm, and `_handle_message`
--   Mqttc/Client/Life, Life/Handshake
--                 `accept`, `await`, `reconnect`, `_handshake`, `_resubscribe`, `connect`
--   Mqttc/Client/Invariant, Session, Flow
--                 the invariant of the client, sequences of calls, the exchanges of QoS 1 and 2
--   Mqttc/Client/Progress
--                 `connect`, `publish` and `await` on a network from which only so much can be read
--   Mqttc/Wire    a client at the end of a stream of bytes, with the reader and the writer of mqtt3, and
--                 two such clients, one at each end
--   Mqttc/Dial    `_reconnect` of mqttc/src/client.rs over the streams of netopt
--   Netopt/Mock, Ssl, Stream, Options, Connection
--                 netopt/src/mock.rs, netopt/src/ssl.rs, netopt/src/tcp.rs, netopt/src/conn.rs
--   Command/Cli, Numbers, Settings, Tls
--                 src/client/cli.rs: `CLI`, and what its two parsers have in common; Numbers is
--                 `str::parse` of Rust's standard library for the numbers among the options
--   Command/Publish, Publish/Run; Command/Subscribe, Subscribe/Run
--                 src/client/command/publish.rs and src/client/command/subscribe.rs with
--                 `publish_parse` and `subscribe_parse` of src/client/cli.rs
--   Command/Getopts, Command/Ending
--                 the package getopts as the parsers call it; `exit` as the end of an action
--   Mqtt3/Samples, Mqtt3/Examples, Mqtt3/TopicExamples, Mqttc/Examples, Netopt/Examples,
--   Command/Examples, and the modules in it
--                 unit tests of the repository and runs at concrete inputs
--
-- Names are those of the code without the leading underscore; `_publish`, `_subscribe` and
-- `_unsubscribe` are `publish_packet`, `subscribe_packet` and `unsubscribe_packet`.
--
-- Numbers are natural numbers. A u16 that the code adds to wraps as in a release build (`next`), and
-- so does the usize that the loops over SUBSCRIBE, SUBACK and UNSUBSCRIBE count down. A text is the
-- list of its UTF-8 bytes. A `Duration` and an `Instant` are nanoseconds.
--
-- Fuel: the loops over topics in `read_subscribe` and `read_unsubscribe` get one round more than there
-- are bytes, and each round reads two bytes at least. `await` waits for the network without a bound,
-- so its model takes a number of rounds, those of a reconnection below it included, and so do the loops
-- of the two commands. The loop that empties the buffer of a connection gets one round more than there
-- are bytes in it, and each round sends one byte at least. A port has five decimal digits at most.
--
-- Parameters: the network (connection, clock, sleeping) and the stores of the user are records of
-- operations; the random number of `generate_client_id` is an argument of `connect`. So are the sockets
-- and the streams of TLS, the calls of openssl that make a context, the package getopts, the files that
-- a command sends and the network that a command dials. The subscriptions are an association list, so
-- the order in which `_resubscribe` lists them is one of the orders that the hash map of the code may
-- have. A log line is evaluated where its level is logged.
--
-- Not modelled: `read_payload`, which nothing calls; texts of errors and of the usage messages; what the
-- commands print, and the logger; the module that takes the place of ssl.rs without that feature,
-- where every call panics; the examples.
pub mod Base
pub mod Outcome
pub mod Mqtt3
pub mod Netopt
pub mod Mqttc
pub mod Command
