-- ===== src/Lib.antt =====
-- fluent-forward-go: a client of the Fluent forward protocol. This library models its messages, their
-- codecs, the handshake, the sessions of the TCP client and of the WebSocket client, and the connection of
-- the latter, and proves what makes them correct.
--
-- The program and the files that model it:
-- - fluent/protocol/transport.go, transport_gen.go: Protocol.EventTime (EventTime), Protocol.Options
--   (MessageOptions), Protocol.Entries (Entry, EntryExt, EntryList, MarshalPacked, UnmarshalPacked,
--   Equal), Protocol.Ack (AckMessage), Protocol.Raw (RawMessage); Protocol.EventTime.Codec are the
--   generated methods of EventTime, and Protocol.Pool is MarshalPacked over the pool of buffers, with the
--   pool of compressors of packed_forward_message.go.
-- - fluent/protocol/message.go, message_gen.go: Protocol.Message (Message, MessageExt), with the options
--   or the nil at their end in Protocol.Tail.
-- - fluent/protocol/forward_message.go: Protocol.Forward. fluent/protocol/packed_forward_message.go and
--   packed_forward_message_gen.go: Protocol.PackedForward.
-- - fluent/protocol/chunk.go: Protocol.ChunkId (makeChunkID and the Chunk methods), Protocol.Chunk
--   (GetChunk, ChunkReader), Protocol.ChunkEncoder (the five types with Chunk and EncodeMsg).
-- - fluent/protocol/handshake.go, handshake_gen.go: Protocol.Handshake.
-- - fluent/client/client.go: Client.Session, whose calls use the messages and the handshake, and
--   Client.Messages (SendMessage to SendCompressedFromBytes). In Client.Stream the connection is two
--   streams of bytes, with the codecs of the messages. Client.Locks are the calls of many goroutines
--   under sessionLock and ackLock, an access at a time. Client.Setup is New, with NewWS and IAMAuthInfo
--   of ws_client.go and the text of WSConnError.
-- - fluent/client/ws_client.go: Client.WsClient (WSClient); its connection factory, with
--   fluent/client/conn_factory.go and fluent/client/errors.go: Client.Dial.
-- - fluent/client/ws/connection.go: Client.Ws. Client.Ws.State is the state of flags, Client.Ws.Closer
--   and Client.Ws.Listener are the steps of CloseWithMsg, Listen and runReadLoop on what they share,
--   Client.Ws.System interleaves any number of them, Client.Ws.Sequential is CloseWithMsg alone,
--   Client.Ws.Writer are calls of WriteMessage under writeLock, and Client.Ws.New is NewConnection.
--
-- The MessagePack package (github.com/tinylib/msgp) is a parameter. Msgp.Put and Msgp.Get are the
-- programs that write and read with it: `wrap` is msgp.WrapError, and a receiver keeps what was
-- assigned before an error. Msgp.Format lists its calls (Writes, Appends, Reads), the bytes of its
-- objects (Wire) and the laws of its documentation (IsFormat, IsWriter, IsAppender, IsReader);
-- Msgp.Model is a codec that meets them. A Go function `EncodeMsg` of a type `T` is `t_encode_msg`,
-- and so on for MarshalMsg, DecodeMsg, UnmarshalMsg, Msgsize and Chunk; those of MessageOptions have
-- no prefix. A nil pointer is `none`; strings and byte slices are lists of numbers below 256. Other
-- parameters are gzip.Writer (Gzip, IsGzip), SHA-512, uuid.New, time.Now, rand.Read,
-- reflect.DeepEqual, fmt.Sprintf, the choices of sync.Pool and the growth of bytes.Buffer, what a
-- msgp.Writer has passed on where an entry fails, how far a msgp.Reader reads ahead, what the server
-- answers (Client.Stream), the reading and writing of times (Times), the connection factory and the
-- connection (Network, and Connection for a ws.Connection), the dialers and http.Header. Client.Locks
-- takes sync.Mutex and sync.RWMutex by their documentation.
--
-- Bounds: lengths fit the 32 bits of the format (IsShort), int64 and int fit 64 bits (IsInt64), and the
-- seconds of an EventTime are written modulo 2 ^ 32. The loop of UnmarshalPacked has as many rounds as
-- its input has bytes, which is enough since each round consumes a byte.
--
-- Not modelled: interleavings under the lock of WSClient, whose calls but Send are one step each; the
-- text of a close message; the commands in cmd and the generated fakes.
pub mod Common
pub mod Msgp
pub mod Protocol
pub mod Client
