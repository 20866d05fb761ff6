-- ===== src/Lib.antt =====
-- A verification library for amiquip, a RabbitMQ client in Rust.
--
-- The client runs one I/O thread per connection. It reads frames from the server, keeps one slot
-- per open channel, puts content messages together and hands methods, messages and confirms to
-- the client's threads over channels; what it writes goes through one output buffer.
--
-- The files, and the code that each models:
--   Errors            src/errors.rs: the errors; Result with two more outcomes, a panic and a loop
--                     that used up the fuel of the model
--   Confirm           src/confirm.rs: ConfirmSmoother and the iterator that it returns; the borrow
--                     of the smoother is a copy that the iterator hands back
--   ChannelSlots      src/io_loop/channel_slots.rs: the slots by channel id and the choice of ids
--   Content           src/delivery.rs, src/get.rs, src/return_.rs: the messages
--   ContentCollector  src/io_loop/content_collector.rs: messages out of method, header and bodies
--   Serialize         src/serialize.rs: the output buffers and the loop that grows them;
--                     Serialize/Conversions has the conversions of methods
--   ConnectionOptions src/connection_options.rs: the options, the answers to Start and Tune, and
--                     Open
--   Handshake         src/io_loop/handshake_state.rs: process, in every state
--   Inner             src/io_loop/mod.rs: the slots, and the part of Inner that frames touch
--   WriteStream       src/io_loop/mod.rs: write_to_stream, with the stream as a parameter
--   ConnectionState   src/io_loop/connection_state.rs: process, for every frame and state
--   ChannelHandle     src/io_loop/channel_handle.rs, src/io_loop/io_loop_handle.rs: the messages to
--                     the I/O thread, the answers, and the sending of content in frames
--   FrameBuffer       src/frame_buffer.rs: read_from over any handler and kind of frame;
--                     FrameBuffer/Amqp has the kind of AMQP
--   Heartbeats        src/heartbeats.rs, src/io_loop/heartbeat_timers.rs, and of src/io_loop/mod.rs
--                     start_heartbeats and process_heartbeat_timers
--   IoLoop            src/io_loop/mod.rs: the messages of clients, the end of the connection, the
--                     watermarks; IoLoop/Allocating has allocate_channel, and
--                     IoLoop/Receiving read_from_stream
--   Options           src/queue.rs, src/exchange.rs, src/consumer.rs: options and their methods
--   Auth              src/auth.rs: the SASL mechanisms
--   Channel           src/channel.rs: the calls of a channel; Channel/Topology has those on queues
--                     and exchanges, Channel/Queue (src/queue.rs), Channel/Exchange
--                     (src/exchange.rs) and Channel/Fetched (src/get.rs) what goes by them, and
--                     Channel/Acknowledge src/delivery.rs and src/consumer.rs
--   Connection        src/connection.rs, and the handle of channel 0 in
--                     src/io_loop/channel_handle.rs: opening channels (Connection/Allocated, with the
--                     I/O thread that gives the id) and closing
--   AmqpUrl           src/connection.rs: a connection by its URL
-- HashMap, IndexSet, Protocol and Exec carry what these share: std's HashMap as an association
-- list, the IndexSet of freed ids as an interface with an implementation by lists, the frames and
-- methods of amq-protocol with the fields that the client reads, and calls that change a state
-- and may fail. Prelude passes the library's names on. Of std, AmqpUrl writes out str::parse for
-- unsigned numbers; of the two versions of open_amqps it has that of the default feature native-tls.
--
-- Integers are natural numbers; where a bound or a wrap-around matters it is written out (u16 for
-- channel ids, the capacity of a Vec). The loops of the smoother's iterator, of
-- insert_unused_channel_id, of serialize, of send_content and of read_from run on fuel. The
-- theorems give enough of it: what is left of the range and the stash, the ids up to channel_max,
-- the bytes of the frame, the length of the content, the bytes and reads of a stream.
--
-- Parameters stand for code of other crates: the generators of amq-protocol (Serialize.Codec, with
-- the laws of Serialize.Writes) and its parser (FrameBuffer.FrameKind), the SASL mechanism, the
-- crate url (AmqpUrl.UrlCrate), the outcome of a send on a channel (Inner.Env), and the other end
-- of a channel (ChannelHandle.Peer). What is sent is an event in a log, a clock is an argument, a
-- timer is the list of what was asked of it, and what a poll or a read gives is a list. The
-- dispatch of mio events, the registrations at the start, sockets, TLS and the threads are not
-- modelled: they are input and output that the parameters stand for.
pub mod Prelude
pub mod HashMap
pub mod Errors
pub mod Confirm
pub mod IndexSet
pub mod ChannelSlots
pub mod Protocol
pub mod Content
pub mod ContentCollector
pub mod Serialize
pub mod ConnectionOptions
pub mod Exec
pub mod Inner
pub mod ConnectionState
pub mod ChannelHandle
pub mod Handshake
pub mod WriteStream
pub mod FrameBuffer
pub mod Heartbeats
pub mod Options
pub mod AmqpUrl
pub mod Connection
pub mod IoLoop
pub mod Auth
pub mod Channel
