-- ===== src/Lib.antt =====
-- rabbitpy, a client library for RabbitMQ.
--
-- The program. A connection has an IO thread (rabbitpy/io.py), which moves bytes between the socket
-- and queues of frames; channel 0 (rabbitpy/channel0.py), which negotiates the connection; and
-- channels (rabbitpy/base.py and rabbitpy/channel.py), on which the caller's thread writes frames
-- to a shared write queue and waits for frames on a read queue of its own. Messages
-- (rabbitpy/message.py) are written to a channel as a method frame, a header and body frames, and
-- are put together again from such frames. The threads share events (rabbitpy/events.py), a queue
-- of exceptions, and the state of the connection.
--
-- The files.
--   Prelude, Action: the names that all files share, and methods that change an object and may
--     raise. What was changed before an exception stays changed. `blocked` is code that still waits
--     when the schedule of the other threads ends, `no_fuel` a bound on the rounds that was too
--     small.
--   Exceptions: rabbitpy/exceptions.py. Stateful: StatefulObject of rabbitpy/base.py. Events:
--     rabbitpy/events.py, an event being its flag.
--   Frame: the frames, with the attributes that rabbitpy reads; what it takes from pamqp is
--     `Pamqp`.
--   Io/Read: IO.on_read, over a decoder of frames. Io/Loop: _IOLoop, over the answers of the
--     poller and the sockets, one `Turn` for each round. Io/Poll, Io/Select and Io/Kqueue: the pollers.
--     Io/Thread: `run`, `_connect` and `stop` of the thread, over what the operating system answers.
--   Channel: AMQPChannel and the part of Channel that it calls. Channel/Wait has
--     `_read_from_queue`, `_wait_on_frame`, `rpc` and the interrupt, Channel/Content the assembly
--     of messages. A channel's state has `schedule`: what the other threads do during each of its
--     reads, also what they put on the write queue, which has all that was ever put on it.
--     Channel/Api has the methods that users and the other classes call.
--   Channel0: rabbitpy/channel0.py. Heartbeat: rabbitpy/heartbeat.py, a period of the timer being
--     the number of bytes written in it. Tx: rabbitpy/tx.py. Queue: the declaration of queues, the
--     commands on them and their consumers, of rabbitpy/amqp_queue.py; Attributes has the checks of
--     what is assigned to a queue. Exchange: rabbitpy/exchange.py.
--   Connection: rabbitpy/connection.py. Ids has the numbers of new channels; Url the arguments
--     that are read from a URL, over urllib; State, Opening, Channels and Closing the life of a
--     connection, whose `schedule` says what the IO thread and the user's other threads do while it
--     waits.
--   Message: rabbitpy/message.py; Create has the constructor, Properties the properties, Body the
--     cutting of a payload, Publish `publish`, `ack`, `nack` and `reject`, and Delivery the way
--     from one channel to another.
--   Amqp: rabbitpy/amqp.py; Consumer has `basic_consume` and `basic_cancel`, Commands and NoWait
--     what the commands send and wait for.
--   Simple: rabbitpy/simple.py; Functions has the functions, each a run of the whole program on a
--     connection of its own, Session a block with a server that answers, and Published a run of
--     `publish`, which goes through Connection/Opening, Channel0, Connection/Channels, Channel,
--     Message/Publish and Connection/Closing.
--
-- Fuel. IO.on_read takes more rounds than its buffer has bytes, which is enough, since a round that
-- goes on takes a byte. A wait takes `rounds`, a bound on its reads and on the waits inside it; the
-- theorems on what a wait returns give a number that is enough, and Channel/Wait/Total has one for
-- every wait and command, twice the entries of the schedule. The body loop takes `parts`, a
-- bound on the body frames.
--
-- Simplifications. Integers of Python are unbounded natural numbers; none that the code handles is
-- negative, but for those that are read from a URL. Log messages and the texts of most exceptions
-- are left out. A queue.get with a timeout sees the frames of one entry of the schedule. A
-- dictionary keeps the order of insertion. While the connection itself waits, in `_connect` and in
-- `close`, the channels of other threads write nothing.
--
-- The values of the server's properties are opaque; what the table under 'capabilities' holds is a
-- parameter, `table_of`.
--
-- Not modelled: the sockets and threads themselves, the emulation of a socket pair, what only reads
-- a field, and what nothing calls. Connection.close, which a remote close calls on channel 0, is a
-- parameter of the Channel0 modules.
mod Prelude
pub mod Exceptions
pub mod Action
pub mod Stateful
pub mod Events
pub mod Io
pub mod Frame
pub mod Heartbeat
pub mod Channel
pub mod Channel0
pub mod Tx
pub mod Queue
pub mod Exchange
pub mod Connection
pub mod Message
pub mod Amqp
pub mod Simple
