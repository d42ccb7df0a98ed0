-- ===== src/Lib.antt =====
-- fmsgd, the host of the fmsg messaging protocol: a message's header is read from a TLS connection
-- and checked against the host's store, the sender may be challenged on a second connection, and
-- the payload follows; the host sends its own messages the same way, and indicators by datagrams.
-- This library models a connection from its header to the codes of the recipients, in both
-- directions, the table by which challenges are answered, the rows of messages to be sent, the
-- preparation of a message, and indicators.
--
-- The parts, and the code they stand for:
--   Wire, Wire/Encode, Wire/MediaTypes, Wire/Hash: pkg/fmsg/fmsg.go. `Header`, `Address` and
--     `AttachmentHeader` have the fields of the structs; `encode` is `Header.Encode`, and
--     `get_message_hash` is `GetMessageHash`. Sizes and times are native numbers below 2^32 and
--     2^64; the time is the bit pattern of the float64. `byte(len(x))` is `to_byte (length x)`.
--   Text, Text/Utf8, Text/Search: what cmd/fmsgd/host.go uses of the packages utf8 and strings.
--     Tables of package unicode and case mapping are the record `Unicode`.
--   Address: `parseAddress`, `isValidUser`, `isValidDomain` and `isValidAttachmentFilename` of
--     cmd/fmsgd/host.go. `check_parts` and `parse_at` are the steps of `parseAddress`.
--   Conn, Conn/Read: one connection as a state (the bytes still to come, how the stream ends,
--     whether writes succeed, what has been sent) and a monad of handlers that return, fail or
--     panic. Reads and `sendCode` are those of cmd/fmsgd/host.go.
--   Receive: `readHeader` of cmd/fmsgd/host.go and all that it calls. Receive/Version has the first
--     byte, the challenge and the flags; Receive/Recipients, Receive/Fields and Receive/Attachments
--     the fields; Receive/WireHeader their order (`read_fields`, `read_wire`); Receive/Host what is
--     asked of the store, DNS and the files, with `isMessageRetrievable`, the participants and
--     `verifySenderIP`; Receive/Parents `handleAddToPath` and `validatePidReplyPath`; Receive/Admit
--     the whole (`read_header`). Receive/Answers gives the response codes for the errors.
--     Receive/Delivery has `shouldChallenge`, `storedSize`, `localRecipients`,
--     `allLocalRecipientsHaveMessageHash` and `resolvePostChallengeCode`; Receive/Limits
--     `recvLimitExceeded` and `validateMsgRecvForAddr`; Receive/Payload `prepareMessageData`;
--     Receive/Download `downloadMessage` and `storeAcceptedMessage`; Receive/Serve `challenge` and
--     `handleConn`. Receive/Replies says what a peer reads on such a connection.
--   RoundTrip: reading what `Header.Encode` writes. `IsWire` says which headers those are.
--   Outgoing: cmd/fmsgd/outgoing.go. Every call holds the mutex, so Outgoing/Trace takes a history
--     as a sequence of calls.
--   Emoji, Emoji/Tables, Emoji/Grammar: internal/emoji/emoji.go and the property tables of
--     internal/emoji/tables.go, against the grammar that the code documents.
--   Sender: cmd/fmsgd/sender.go. Sender/Rows has the rows of msg_to and msg_add_to with the
--     conditions of the queries on them, and the updates; Sender/Targets `findPendingTargets`;
--     Sender/Exchange what `deliverUnit` writes and reads, with `sendMsgData`; Sender/Deliver
--     `deliverUnit` around it, its transaction as a `Report` of updates; Sender/Message
--     `deliverMessage` as the list of what it does. Sender/Exchange/Agreement sets the sender
--     against Receive/Delivery.
--   Prepare: `Clone`, `ApplyCommonTypes`, `preparePart`, `Prepare` and `UnmarshalPrepared` of
--     pkg/fmsg/prepare.go; Prepare/Deflate `ShouldCompress` and `TryCompress` of
--     pkg/fmsg/deflate.go.
--   Store: the rows of messages and of batches in cmd/fmsgd/store.go, with the links between them:
--     `resolveMsgParentLinks` and what it calls, `existingMsgIDForAddTo`, and what `storeMsgDetail`
--     and `attachAddToRecipients` do to these two tables (`store_message`). Store/Arrivals stores
--     messages in the order in which they arrive; a table's next id counts on, also where a message
--     is not stored. The unique index on hashes is left out: a second row is more than there can be.
--   Indicators: cmd/fmsgd/indicators.go. Indicators/Datagram has the datagrams, Indicators/Window
--     the window limit, Indicators/Targets the receivers, Indicators/Pending `offer` and `flush`,
--     Indicators/Cache `ipCache`, and Indicators/Service `verifyAndPublish`, `handleNotice` and
--     `sendTo`.
--   Prelude: numbers, lists, bytes and tests that the parts share. Tests: concrete runs.
--
-- Parameters stand for code outside the repository, for the queries, and for the functions of the
-- repository that only name, copy or keep files (`uniqueFilepath`, `copyMessagePayload`,
-- `persistAttachmentPayloads` and `fmsg.Preserve`): the store, the file system,
-- SHA-256, zlib, DNS, dialling, the address of the peer, float64 arithmetic, JSON, the tables of
-- package unicode, and the set of RGI emoji. Each is a field of `Host`, `Inbox`, `Server`, `Files`,
-- `Config`, `Float64`, `Unicode`, `Schedule`, `Database`, `Network`, `Loads` or `Service`, or an
-- argument; a query's error is a missing result. A parameter does not change while a connection is
-- served or a unit delivered.
--
-- Fuel: `elements` takes the number of characters and one more, which is enough since each element
-- takes a character. `is_message_retrievable` takes the number of messages of a chain of parents;
-- where the chain is longer it gives no result and the handler panics. The source calls itself until
-- the stack ends, which stops the program: the model says no more than that nothing is returned.
--
-- Not modelled: the usage records, temporary files, the accept loop and the start-up code of
-- cmd/fmsgd/host.go, and the errors of closing and of writing a temporary file there; the polling
-- loop of cmd/fmsgd/sender.go and its queries of notices and of pending parents; the float64 bucket,
-- the sockets and the queries of cmd/fmsgd/indicators.go; `Preserve` and the durable directories of
-- pkg/fmsg/prepare.go; cmd/fmsgd/store.go but for `canonicalMsgHash`, `inboundRecipientRow` and the
-- rows of messages and batches, cmd/fmsgd/dns.go, cmd/fmsgd/id.go but for its struct, and
-- pkg/message/store.go, which are SQL, network calls and JSON; read deadlines and logs.
pub mod Prelude
pub mod Text
pub mod Wire
pub mod Address
pub mod Conn
pub mod Receive
pub mod Sender
pub mod Prepare
pub mod Store
pub mod RoundTrip
pub mod Outgoing
pub mod Emoji
pub mod Indicators
mod Tests
