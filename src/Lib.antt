-- ===== src/Lib.antt =====
-- poprocks: messages between a host and its micro VMs, and the VMs themselves.
--
-- A messenger (vsock/) sends frames over a connection and serves the ones that come: a header of 16
-- bytes with an ID, a type and a length, and a payload. A send may wait for an acknowledgement with
-- its ID, and is retried; a request waits for the response with its ID and type. Typed messages
-- (vsock/codec.go, vsock/protocol/) are handlers and sends over it, and heartbeats and file transfers
-- are made of those. A VM (vm/) has hardware, an environment and a life behind a mutex. A drive
-- (drive/) is an image that is mounted on the host to read and write its files, plain or encrypted.
--
-- Prelude      Go's integers, byte strings and maps, `strings`, tests, and lemmas on lists.
-- FilePath     what the code uses of `path/filepath`; Tree says which paths are below another.
-- Vsock/Errors vsock/errors.go. Vsock/Io models `io.Reader` as the schedule of what its reads give,
--              with `io.ReadFull`, `io.ReadAll` and `io.LimitedReader` over it.
-- Vsock/Wire   the header of a frame; `put_header` is what `Binary` and `sendStreamOnce` write.
-- Vsock/Message vsock/message.go. A message that `Serve` hands out reads from the connection, which is
--              an argument and a result of each operation: that is the store that they share.
-- Vsock/Link   `writeAll` of vsock/stream.go, over the schedule of what the writes of the connection
--              take, of when the context is done, and of what happens in each wait.
-- Vsock/Ack    vsock/ack.go; a channel is a number.
-- Vsock/Send   the sends of vsock/stream.go: `sendStreamOnce`, `sendStreamAttempt` and
--              `SendStreamWithID`, with a child for each (Body is the copy loop).
-- Vsock/Source the payloads that are streams, fresh IDs and `SendStream` of vsock/stream.go.
-- Vsock/Request `request` of vsock/request.go; the messages that `Serve` has for a waiting request are
--              events.
-- Vsock/Messenger vsock/messenger.go and `readHeader`: `serve` calls `handle_message` for each frame.
--              Serve is about one message on a connection that goes on behind it, Frames about the loop.
--              Calls has `Request` and `RequestStream`, Create the constructors.
-- Protocol     vsock/codec.go (Codec, and Types for what reflection shows of a type, as in
--              vsock/helpers.go), vsock/protocol/m.go (Send, Receive), vsock/protocol/r.go (Respond has the
--              handler and `NewR`, Ask has `Request`) and vsock/protocol/common/heartbeat.go. Deliver
--              and Heartbeat/Exchange put both sides and the messengers between them together.
-- Transfer     vsock/protocol/common/file_transfer.go: Framing has the body's header, Receive the three
--              handlers, Send has `SendFile`, Create `NewFileTransfer`; files are a map from paths to
--              bytes.
-- Vm           vm/env.go, vm/config.go, vm/hardware.go and `NewVM`, and the operations of
--              vm/status.go, vm/vm.go and vm/drive.go on the mutex, the status and the drives (Attach is
--              about images).
-- Drive/Options, Drive/Paths, Drive/Keys, Drive/Detect  drive/options.go, drive/helpers.go,
--              drive/key.go, and drive/autodetect.go with drive/mount_method.go.
-- Drive/Os     what drive/ asks of the operating system and of other programs: a log of calls, and
--              answers that may depend on it. Ends is a logic for computations that may fail.
-- Drive/Base, Drive/Files, Drive/Life  drive/base_drive.go: mounts, unmounts and ends; reads and
--              writes; and the critical sections of several goroutines as steps.
-- Drive/Encrypted drive/encrypted_drive.go, with Unmount and Files; Mapping and Balance are about the
--              LUKS mapping, OneShot about a key that can be used once.
-- Drive/Calm   calls of drives that do not panic; a panic is a value of the errors of Drive/Errors.
-- Drive/Interface, Drive/Runner  drive/drive.go, with the two kinds of drive as its implementations,
--              and drive/test_runner/main.go, whose scenarios use it; what they take of a drive is
--              `IsLawful`.
-- Tests        concrete runs.
--
-- Numbers are natural numbers with the wrap-around of Go's types written out where the code converts
-- (`uint32(len(payload))`), or integers where the code has signed ones and tests their signs.
--
-- Loops are recursion on the data they walk. The copy loop of `sendStreamOnce` may read nothing for a
-- while, and is recursion on rounds; it is given more of them than the reader has reads
-- (`body_loop_ends` of Vsock/Send/Body). `Serve` runs until its connection ends: its rounds are an
-- argument, and more than there are frames are enough. The attempts of a send are `1 + MaxRetries`.
--
-- Other packages' code is a parameter: the formats of the codecs, SHA-256 and the comparison of
-- checksums, what the operating system answers, and the types of a program as package reflect shows
-- them. The walk over nested structs of `hasStructTag` has fuel: two more than there are structs.
-- Nil receivers, the locks of the messenger and goroutines are not modelled: the operations of a
-- table are steps on it, and the acknowledgement that a goroutine sends is noted by its ID. A
-- drive's files are not modelled beyond the calls that change them, so that a link that is put in
-- place between the check of a path and its use is outside the model. What a handler of a stream
-- reads off the connection is not followed. Not modelled is the final critical section of `Delete`
-- as a step among others.

pub mod Prelude
pub mod FilePath
pub mod Vsock
pub mod Protocol
pub mod Transfer
pub mod Vm
pub mod Drive
pub mod Tests
