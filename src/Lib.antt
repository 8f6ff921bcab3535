-- ===== src/Lib.antt =====
-- Verification library of embedded-bridge, the Python package under python/src/embedded_bridge:
-- framings that cut a byte stream of an embedded device into frames, lines and messages, and
-- receivers that consume these; the transports carry the bytes.
--
-- A framer takes bytes and calls `on_frame` with each payload; here a framer is a record, an
-- operation returns the new record, and the calls are a log in it. An encoder is a function on
-- lists of numbers. Receivers take messages, the lines and payloads that the framings deliver.
--
-- Files, by the source they are about (paths below python/src/embedded_bridge):
--   Framing/Crc16    framing/crc16.py: the register, its residue, the detection of bursts
--   Framing/Slip     framing/slip.py: SlipFramer and SlipFrameEncoder
--   Framing/Hdlc     framing/hdlc.py: HdlcFramer and HdlcFrameEncoder, which use the CRC
--   Framing/Cobs     framing/cobs.py: CobsFramer, CobsFrameEncoder and the codec
--   Framing/Varint   framing/message.py: encode_varint and decode_varint
--   Framing/Message  framing/message.py: Handler (the handler classes), Reader (MessageReader, over
--                    any handler) and Writer (MessageWriter)
--   Framing/Line     framing/line.py: LineFramer
--   Receivers/Router         receivers/router.py: routes, predicates and passthrough
--   Receivers/CrashDetector  receivers/crash_detector.py: crash patterns and silent hangs
--   Receivers/SleepWake      receivers/sleep_wake.py: the states awake, sleeping and waking
--   Receivers/EventCapture   receivers/event_capture.py: values of a line, wraps of time stamps, spans
--   Receivers/MemoryTracker  receivers/memory_tracker.py: MemoryTracker, its report and parser
--   Transport/WebSocket      transport/websocket.py: WebSocketTransport, its stream and reconnect
--   Transport/Serial         transport/serial.py: Port (resolve_port) and SerialTransport
--   Transport/Base           transport/base.py: the operations of a transport
--   Testing          testing/: Types and Protocol (types.py, protocol.py), Session (session.py: the
--                    lines, the reconnect), Commands (discover, start_test) and Monitor (monitor)
--   Text             the text of Python that these files use: the UTF-8 codec, strip, search, literals,
--                    int, regular expressions
--   Prelude          tests, lists, bitwise operators as arithmetic, recursion on smaller numbers
-- A component's definitions stand in its own file, its proofs in the files below it, named for what
-- they are about; Framing/Delivery holds what the framings' statements share.
--
-- Numbers are native natural numbers, those with a sign a ℤ over them; a byte is one below 256
-- where a statement says so. Python's integers do not overflow, and the code masks the CRC itself.
-- Loops are recursion on the list, on a smaller value (encode_varint), or on fuel: the length of the
-- input for the COBS decoder, for `feed` of the reader and for the lines of a buffer, which is enough
-- since each round takes a byte at least. A str is its list of code points. Exceptions are values;
-- logging is left out. Times of the crash detector are a parameter with the operations that
-- it uses, and the clock's readings are arguments.
--
-- A transport stands with the world that its packages act on, which a record of operations stands
-- for (Network, System): connections, ports, the clock and `sleep`. The laws that a theorem needs of
-- them are records too (Log, Clock). `_do_reconnect` takes fuel for its rounds, more than
-- reconnect_timeout / reconnect_interval; `read` may wait for ever, as the code does, and takes fuel
-- that its theorem leaves open.
--
-- A test session stands on a record too (Host): a transport, the clock and the calls of other packages.
-- Its loops are on fuel, and `stuck` says that it has run out; the laws of the clock (Ticks) measure
-- time in ticks, and the fuel of a loop is above the ticks of its time limit.
--
-- A regular expression is data, and Text/Regex matches it with the choices of `re` in their order. The
-- tables of Unicode behind `\w` and `\d` and `float` on texts are parameters.
--
-- Not modelled: the modules that only export names, and the C++ headers of the repository.
pub mod Framing
pub mod Prelude
pub mod Receivers
pub mod Testing
pub mod Text
pub mod Transport
