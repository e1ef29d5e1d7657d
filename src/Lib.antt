-- ===== src/Lib.antt =====
-- A verification library for the browser side of gRPC Bridge (web/src): a gRPC client that speaks
-- HTTP/2 itself, over a byte stream that a bridge relays.
--
-- The parts that are modelled, and the files:
--
-- * Errors (web/src/h2/errors.ts): the error codes, and what the modelled code throws (H2Error, the
--   RangeError of a DataView, the codec's UnknownFrameType, a ConnectError).
-- * Bytes (web/src/h2/bytes.ts): concatBytes, ByteWriter with its growing buffer, ByteReader.
--   Bytes/Written and Bytes/Reader say what is written and what is left to read.
-- * Text (web/src/h2/bytes.ts): encodeUtf8 and decodeUtf8, on strings of UTF-16 code units.
--   Text/WellFormed and Text/Characters are about the bytes of characters, Text/RoundTrip about what
--   is decoded of what was encoded.
-- * Frames (web/src/h2/frames): Types holds the frame model, Encode encodeBody and serializeFrame,
--   Parse parsePayload, Decoder the class FrameDecoder. Decoder/Rounds and Decoder/Chunks are about
--   its loop, RoundTrip about what the receiver makes of what was sent.
-- * Flow (web/src/h2/flow.ts): SendWindow, with its parked promises.
-- * Framing (web/src/framing.ts): the length-prefixed records of gRPC, `frame` and `unframe`; Status is
--   validateStatus.
-- * Hpack (web/src/h2/hpack): Integer, Strings, Table, Decoder and Encoder are the functions and
--   classes of hpack.ts; Huffman is huffman.ts, and HuffmanTable and StaticTable are the tables.
--   `toLowerCase` is a parameter of the encoder. Table/Bounds is about the dynamic table, Decoder/Table
--   and Decoder/Limits about what a whole header block does to it and what the limits promise.
--   Huffman/Bits and Writer describe the code as lists of bits, and the RoundTrip of Huffman, of
--   Strings and of Encoder are about what is read of what was written; Encoder/Static, Fields and
--   Reading are about one field of a block.
-- * Stream (web/src/h2/stream.ts): Head is collectHeaders, State the class H2Stream with its calls,
--   Steps sequences of them. Credit is about the bytes of the body and the receive window, Ends about
--   failures. What a plain object inherits is a parameter.
-- * Connection (web/src/h2/connection.ts, web/src/h2/types.ts): State is the state of H2Connection and
--   its constructor, Streams the map of its streams, Teardown the receive windows and the ends of
--   streams and of the connection, Heads the head of a request, Blocks header blocks and pushes,
--   Receive what `dispatch` does with each frame, Requests what `request`, `sendHeaders`, `pumpBody`
--   and `ping` do between two awaits, Events the sequences of all these, Adapters what goes into a body
--   and comes out of a response. `sent` is what was handed to the writer, `detached` the streams that
--   left the map, `closing` the calls of close() that wait for their GOAWAY. A pump's chunk is sent round by
--   round, and what the rest does to the connection between two rounds is a list of changes. Walk
--   carries an invariant through any sequence of events; Credit is about the receive window, Life
--   about closing, Pending and Reassembly about header blocks, Pump about the upload, Requests/Slots
--   about the limit on streams, Receive/Excluded about GOAWAY, Heads/Received about what a server
--   reads of a request's head. What a plain object inherits, `toLowerCase`, `toUpperCase` and the clock
--   are parameters.
-- * Retry (web/src/retry.ts): Policy is the policy and the throttle, Decide what the loop does about a
--   failed attempt, Replay the messages that a request keeps, the iterators of its attempts with the
--   read that they share, and the byte account of all requests; Replay/Drain, Again and Held are about
--   what another attempt reads and what the account counts. Call is `run` and `pause` with the deadline
--   and the combined abort signal. Call/Deadline is about the deadline, Over about aborts, Waits about
--   the pauses, Tidy about what a call leaves behind.
-- * Recovery (web/src/recovery.ts, the states of web/src/client.ts): State is the state of
--   RecoveringConnection and the calls that wait in `select`, Steps what may happen to it between two
--   awaits, with the listeners that call `close()` meanwhile. Rest is about what is true between two
--   events, Sessions about what becomes of the sessions, Backoff about the delays. The random number
--   of the jitter is an argument of the event, delays are in ten thousandths of a millisecond.
--
-- FrameDecoder cuts frames out of the bytes that the connection reads; their payloads go through
-- ByteReader, as the serialized ones go through ByteWriter. DATA payloads carry the gRPC records
-- that Framing cuts, and wait for SendWindow before they are sent. Header blocks go through Hpack; their
-- lists, and the payloads of DATA, go to H2Stream, whose credit H2Connection gives back to the peer.
-- A call whose attempt fails is decided on by Retry, and its messages are read again from Replay; the
-- session that it goes to next is the one that Recovery has.
--
-- A byte is a number; a Uint8Array is a list of them and a DataView is the same list. Code that
-- throws returns a Result, an async generator the messages that it yielded before its outcome. The
-- integers of JavaScript stay below 2^53 here, so numbers are the naturals, and the ones that may
-- be negative (a flow-control window) are the integers of Prelude/Int. A parked promise is a number.
-- Loops run on fuel: the length of the bytes at hand for a decoder's rounds, each of which takes a
-- byte at least, the value itself for the groups of an integer and seven rounds to read them, the
-- number of entries for evictions, the length of what is left of a header block for its CONTINUATION
-- frames, the list of what happens between its rounds for the chunk of a pump, and eight rounds for the
-- padding of a Huffman code, of which seven are used at most.
--
-- Not modelled: the runtime contracts, which project the descriptors of another package, the opening
-- of a WebSocket, and the transports, interceptors and shared clients, which are
-- asynchronous code on top of these parts; of the connection, the promises that tell of its
-- readiness and its end, and the JSON of a response; the transport object around the retries,
-- and the checks of its options, whose numbers are whole and not negative here; the relay itself, which
-- is not TypeScript. The messages of errors are left out.
mod Prelude
pub mod Errors
pub mod Bytes
pub mod Connection
pub mod Frames
pub mod Flow
pub mod Framing
pub mod Text
pub mod Hpack
pub mod Stream
pub mod Recovery
pub mod Retry
