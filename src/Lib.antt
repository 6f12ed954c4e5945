-- ===== src/Lib.antt =====
-- My Messenger: a chat server with its message format, its command language and its services.
--
-- A client types a line. The parser (src/protocol/parser.cpp) matches it with the patterns of the
-- catalog (src/application/commands) and builds a message (src/models/message.cpp), which the
-- serializer turns into bytes and the framer (src/protocol/framing.cpp) puts behind a length. The
-- server takes a frame out of the buffer of a connection, reads the message, gives it to the handler
-- of its type (src/application/dispatching), which for a command looks the command up by name and
-- calls the application service (src/application/services). That service changes the users, the
-- chats and the sessions, and queues replies on connections.
--
-- Which file models which part:
--   Prelude     what the modules share: lists, byte strings (a byte is a number, and no definition
--               depends on its being below 256), maps as association lists, results, and code that
--               changes a state and may throw.
--   Failure     the exceptions; `undefined` is undefined behaviour.
--   Wire        read_u32, write_u32 and the like of src/models/message.cpp.
--   Message     class Message; Message/Codec is class Serializer, Message/Responses the constant
--               replies of include/models/message.hpp. The header's field `length` is `size` here.
--   Framing     class FramerMessage and the loops that call it in src/transport/client.cpp and
--               src/transport/handling.cpp.
--   Transport   class TCPTransport of src/transport/transport.cpp and the connections of
--               src/transport/connection.cpp; what recv and send answer is an argument.
--               Transport/Datagram is UDPTransport and TLSTransport, and Transport/Socket the sockets of
--               src/transport/raw_socket.cpp; Transport/Buffer is NetBuffer of
--               include/transport/interface.hpp.
--   Peer        PeerNode of src/transport/peer.cpp, and Peer/Events PeerEventHandler of
--               src/transport/handling.cpp; an event carries what the system would answer.
--               Peer/Commands is what a peer does with commands and messages, with Peer/Numbers
--               for the port of /connect, and Peer/Exchange relates two peers. Peer/Service is the
--               node from its listening socket to the end of its loop.
--   Queue       src/application/messaging/message_queue.cpp, a ring of 4096 places per recipient.
--   Sessions, Users, Chats   the services of the same names with src/models/user.cpp and
--               src/models/chat.cpp.
--   Commands    CommandPatternMatcher, the catalog and class Parser.
--   Server      ServerApplicationService; Server/Commands is the way of a message from
--               MessagingServer through ServerMessageDispatcher and ServerCommandBus to a command,
--               and Server/Events ServerHandler and class Server, which run it; Server/Service is
--               class Server from its start to its stop, with the acceptors and AcceptHandler.
--   Crypto      the calls of OpenSSL that src/infrastructure/crypto makes, as the fields of a record,
--               with what OpenSSL's manual promises of them in IsLawful; Crypto/Keys is class
--               IdentityKey and class DH_Key, Crypto/Kdf class HKDF, Crypto/Gcm class AESGCMEncryptor.
--               Crypto/Handles is the life of a key object with its share of an EVP_PKEY.
--   Encryption  src/application/encryption_service.cpp; Encryption/Startup is set_key with the key
--               file, over two more calls of OpenSSL and what becomes of a write to the disk.
--   Client      the commands of src/application/commands/impl on a client, with Client/Files for
--               /sendfile; Client/Handlers what a client does with a message of each type, and
--               Client/Dispatch how it gets there. Client/Pending, Client/Conversation,
--               Client/Chunks, Client/Journey and Client/Reach relate these to the server and to
--               another client. Client/Events is class Client and ClientHandler, with the loop.
--               Client/Login follows /login from the line to the server.
--   Ui          what the windows of src/ui do with what is typed and with answers, and the queue of
--               the GUI thread that src/application/runtime/runtime.cpp sets up; the strings of Qt are
--               a parameter.
--   Tests       concrete inputs for the theorems.
--
-- Integers are natural numbers, with the remainder written out where the code narrows or wraps. The
-- clock is an argument, or a field of the server's state. A file descriptor is a natural number.
-- Maps are searched from the front. The order of iteration of an unordered container, which C++ leaves
-- open, is that of a list here. The loop
-- over a receive buffer has the length of the buffer and one more as its fuel: every round takes
-- four bytes at least, and the theorem on the loop shows that it ends. The loop over the texts that
-- wait for a recipient has 4096, and a ring holds fewer texts. A peer's loop over what it received has
-- the length of that and one more again, and ten digits are enough for a number of 32 bits. The server's `send` queues the
-- bytes on a connection; the model keeps the list of what was queued, with the connection.
--
-- The references of a key are counted by the calls that take and free them, so what OpenSSL does with
-- its own count is not modelled. A loop over events is one over the list of those that come, each with
-- what the system and OpenSSL would answer, in the batches that epoll_wait gives where a loop has more
-- than one descriptor; it says whether it has ended or waits. The framer of a client, which the code
-- never makes, is taken to be there. The queue of the
-- window has as many rounds as there are lines and answers, and one more.
--
-- Not modelled: how epoll finds events and what TLS does on the wire (system calls and OpenSSL's),
-- layout and styles of the windows, the window of src/ui/simple_window.cpp, which the program does not
-- use, logging, the threads and signals of the process, the cryptography itself, which is OpenSSL's
-- and a parameter, and PeerUDPAcceptor, whose accept has no body.
pub mod Prelude
pub mod Failure
pub mod Wire
pub mod Message
pub mod Framing
pub mod Transport
pub mod Queue
pub mod Peer
pub mod Crypto
pub mod Encryption
pub mod Sessions
pub mod Ui
pub mod Users
pub mod Chats
pub mod Commands
pub mod Server
pub mod Client
pub mod Tests
