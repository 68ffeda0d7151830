-- ===== src/Lib.antt =====
-- A verification library of zcm: micro messaging over exchangeable transports.
--
-- Parts, bottom up, and the file that models each:
--
-- - CircBuffer.antt: zcm/transport/generic_serial_circ_buff.c. `CircBuffer` is `circBuffer_t`; each
--   `cb_*` function keeps its name. Its children prove what they do to `contents`, the bytes that
--   wait, and what `cb_flush_in` and `cb_flush_out` exchange with their callbacks.
-- - Transport.antt: the return codes and `zcm_msg_t` of zcm/zcm.h and zcm/transport.h.
-- - Serial.antt and Serial/: zcm/transport/generic_serial_transport.c and generic_serial_fletcher.h.
--   `serial_sendmsg` writes an escaped and checksummed frame into one `CircBuffer`;
--   Serial/Recv.antt is `serial_recvmsg`, which looks for a frame in another. Serial/Frame.antt is the
--   format by itself. `recv_loop` and `resync` take fuel, one more than the bytes in the ring and
--   as many as these: every round takes a byte. The clock is a function of the number of its
--   readings.
-- - Queue.antt: zcm/util/queue.hpp. A slot is `some` while its element is constructed. `destroy` and
--   `move_all` take the number of messages as fuel.
-- - ThreadsafeQueue.antt: zcm/util/threadsafe_queue.hpp. A method is one step under the mutex, and a
--   wait whose predicate is false is `none`; `Run` is any order of the steps of producers
--   and of one consumer, which reads the top and pops it in two steps.
-- - Coretypes.antt and Coretypes/: zcm/zcm_coretypes.h, which the generated types call. A number is its
--   bit pattern; Coretypes/Numbers.antt has the ten encoders and decoders of integers and floats, and
--   Coretypes/Text.antt those of bytes and strings. `buf` is a whole memory object, positions
--   are of 32 bits, and a size that is negative as an `int` is told apart.
-- - Eventlog.antt and Eventlog/: zcm/eventlog.c and zcm/util/ioutils.h. A file is its bytes and a position;
--   a reader answers or fails, and moves the position either way. The scans for the sync word take the
--   bytes that are left as fuel, one a round, and the loops over events as well, since each round passes
--   a sync word.
-- - Inproc.antt: zcm/transport/transport_inproc.cpp, a queue. `inproc_methods` is its table of methods,
--   a value of the interface `Methods` of Transport.antt that the core below is written against.
-- - Nonblocking.antt and Nonblocking/: zcm/nonblocking.c, over any transport. The handlers are a function
--   on the program's own state and the core, so that they may call back into it.
--   `flush_loop` takes a number of rounds, since handlers may publish for ever;
--   Nonblocking/OverInproc.antt has the rounds that are enough if they do not.
-- - Tracker.antt: `Tracker` of zcm/message_tracker.hpp, with what a message type brings in `Traits`.
-- - Dispatcher.antt: `SynchronizedMessageDispatcher` of the same file, over two trackers. The pairs
--   given to the callback are a list.
-- - Udp.antt and Udp/: zcm/transport/udp. Udp/Pool.antt is `MessagePool` of buffers.cpp, in which the
--   messages wait for their fragments. `make_room` and `expire_from` take the number of elements as
--   fuel: every round removes one or passes one. The two struct sizes are an argument.
--   Udp/Recv.antt is `UDP::recvFragment` of udp.cpp: `parse_part` is what it checks of a datagram by
--   itself, `store` what it does to the message that the fragment belongs to. Udp/Send.antt is
--   `UDP::sendmsg` with the sizes of platforms other than Apple's; the status that the socket gives for each
--   datagram, `packet_size`, 0 or another, is an argument. Udp/Reassembly.antt is about the fragments of one message: Wire.antt has the
--   bytes of a datagram, the other children follow them from the cut in `sendmsg` to the complete
--   message. `receive` there calls `recvFragment` alone, with no expiry between two fragments.
--   Udp/Read.antt is `recvShort`, `readMessage` and `recvmsg`; the loop runs over the list of what the
--   socket does.
-- - Udp/MemPool.antt: zcm/transport/udp/mempool.cpp. A block is its address; what `malloc` returns is an
--   argument. `highest_bit` halves at most 32 times, as wide as the number is.
-- - Url.antt and Url/: zcm/url.cpp. Strings are lists of characters; `std::string::find` and
--   `getline` are written out in Url.antt. `getline_loop` takes the length of the string as fuel, a
--   character a round.
-- - Blocking.antt and Blocking/: zcm/blocking.cpp, on the two threadsafe queues. A block under a mutex is a
--   step; `stop` is the composition of those of `stop(false)`. Blocking/Threads.antt has the steps of the
--   program and of the send thread, Blocking/Quiet.antt what subscriptions do to the transport,
--   Blocking/Dispatch.antt the subscriptions and the handlers, with
--   `std::regex_match` as a parameter. The loops of `flush` run for the number of queued messages.
-- - BufferPool.antt: zcm/util/message_buffer_pool.hpp, where the blocking core keeps the storage of its
--   messages. How a `std::vector` grows is a parameter.
-- - Can.antt: `get`, `sendFrame` and `put` of zcm/transport/transport_can.cpp, which the serial transport
--   calls. Whether the socket takes a frame is an argument. `put_loop` takes the number of bytes as fuel.
-- - Tokenize.antt: gen/tokenize.c, the tokens of the type generator. A `Tokenizer` is `tokenize_t`
--   without the line and column of a token and without the size of its buffer; a file is its
--   characters, ASCII and not NUL, and a `realloc` succeeds. `tokenize_ungetc` is only called right
--   after a character was read, so a token starts from `pending` and its loops run over a list.
-- - StructHash.antt: `ZCMStruct::computeHash` of gen/ZCMGen.cpp with its `hashUpdate`, on the fields of
--   a struct that it reads. A string is its characters; the two build options are an argument.
--
-- A size is a natural number: no sum of ring positions comes near 2^64, since the rings are in
-- memory. Widths that matter are written out: the checksum is computed modulo 2^16, and the length
-- in a frame modulo 2^32; so are the counters of UDP, the payload size of its `sendmsg`, and the
-- sizes and positions of the type encoding. `malloc`, the serial port's `get` and `put`, and the clock are arguments.
--
-- Not modelled: the receive and handler threads of zcm/blocking.cpp, the sockets of the UDP and CAN
-- transports, the file, shared-memory and ZeroMQ transports, the parser and the emitters of the type
-- generator, and the tools. Of the tracker its callback thread and its two filters over doubles are
-- left out, and of the event log the search for a timestamp, which computes with doubles.
pub mod Prelude
pub mod CircBuffer
pub mod Transport
pub mod Serial
pub mod Queue
pub mod ThreadsafeQueue
pub mod Coretypes
pub mod Eventlog
pub mod Inproc
pub mod Nonblocking
pub mod Tracker
pub mod Dispatcher
pub mod Udp
pub mod Url
pub mod Blocking
pub mod BufferPool
pub mod Can
pub mod Tokenize
pub mod StructHash
pub mod Tests
