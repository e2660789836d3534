-- ===== src/Lib.antt =====
-- gosh is a client for mosh sessions: it keeps the user's input and the server's terminal in step over
-- encrypted UDP datagrams. This library models the layers that a byte passes on its way, as functions
-- translated from the Go code, and proves what each layer promises.
--
-- How the parts interact. Keys go through `processEscapes` and `filterInput` (internal/client) into the
-- UserStream (internal/statesync), whose `DiffFrom` is a UserMessage (internal/wire). The transport
-- puts it into an Instruction (internal/wire), compresses it and cuts it into fragments
-- (internal/transport); the connection numbers and stamps each as a packet (internal/network) and seals
-- it (internal/crypto, over internal/ocb). Received datagrams go the other way, up to the HostMessage
-- whose terminal bytes `apply` filters through internal/osc52 and writes to the terminal. The event loop
-- of `Run` (internal/client) drives all of it. Before that, internal/bootstrap
-- starts the server over SSH: it checks the host's key, runs a command line and finds in its output the
-- port and the key that the session is made with. cmd/gosh puts these together: it resolves the target and
-- the ways to log in, starts the server, puts the terminal into raw mode (internal/termenv), runs the
-- session and restores the terminal.
--
-- The files, and the code that they model:
--   Wire/Varint, Wire/Fields, Wire/Instruction, Wire/Messages: internal/wire/wire.go (`appendVarint`,
--     `readVarint`, the field encoders, `parseFields` with its visitors, `Instruction`, `UserEvent`,
--     `HostEvent` and their codecs). Wire/Error has the errors.
--   Osc52/Policy, Osc52/Filter: internal/osc52/osc52.go (`Policy`, `Filter` and its methods; one round
--     of the loop of `Filter` is a function for each state). Osc52/Machine is the specification: a
--     machine that reads each byte once. Osc52/Bypass follows two inputs through it.
--   Transport/Fragment, Transport/Assembly: internal/transport/fragment.go (`fragment`, `fragmenter`,
--     `assembly`). Transport/Delivery joins the two ends.
--   Transport/Sender, Transport/Send: internal/transport/sender.go (`sender`: its timers; what it sends,
--     its acknowledgments). Under Transport/Send, Chain, Synced and Reached are about the states that it
--     keeps, Numbers, Acked, Naming and Named about their numbers, Delivered, Peer and Agreed about what a `Tick`
--     hands over and the other end makes of it, and Bounds, Ticks and Latch about its fields.
--   Transport/Receiver: internal/transport/transport.go (`Recv`). Under it, Accepted is about what it applies,
--     and Latch about the shutdown.
--   Statesync/UserStream: internal/statesync/userstream.go. Statesync/Diff: what a diff says.
--     Statesync/Equal: that `Equal` is equality.
--   Network/Packet, Network/Connection: internal/network/packet.go and connection.go (`Send`, `Recv`,
--     `maybeHopPort`, `redial`, `Close`). Network/Dial: connection.go (`Dial`, `dialUDP`, `Timeout` and
--     the averages of round trips). Under Network/Connection, Budget, Nonces, Replay and Sockets are
--     about them.
--   Ocb/Block, Ocb/Cipher: internal/ocb/ocb.go (the arithmetic on blocks; `New`, `Seal`, `Open`).
--     Ocb/Lengths, Ocb/Loops, Ocb/Turns, Ocb/Opens and Ocb/Exact follow `Open` and `Seal` through each
--     other.
--   Crypto/Session, Crypto/Key, Crypto/Sealing: internal/crypto/session.go (`Encrypt`, `Decrypt`; the
--     base64 key; `NewSession`, which fills the interface of Crypto/Session with Ocb/Cipher).
--   Bootstrap/Algorithms, Bootstrap/HostKeys: internal/bootstrap/hostkey.go (the order of the host key
--     algorithms; the policies and `acceptNew`). Bootstrap/KnownHosts has what they take from x/crypto.
--     Bootstrap/Preference, Bootstrap/Policies, Bootstrap/Made, Bootstrap/Lines and Bootstrap/FirstUse are
--     about them.
--   Bootstrap/Command, Bootstrap/Output, Bootstrap/Run: internal/bootstrap/bootstrap.go
--     (`serverCommand` and `shellQuote`; `connectRE` and `RedactKeys`; `Run`). Bootstrap/Shell is the
--     specification of the first: a reader of POSIX words, which Bootstrap/Quoting and Bootstrap/Words
--     apply to it. Bootstrap/Started, Bootstrap/Succeeded, Bootstrap/OneLine and
--     Bootstrap/Redaction are about the others.
--   Bootstrap/Agents: dotvault.go, agent_other.go, agent_windows.go and the agentpeer files of
--     internal/bootstrap. Bootstrap/Trust is about them.
--   Client/Escape, Client/Render: internal/client/client.go (`processEscapes`, `apply`, `filterInput`).
--   Client/Run: the event loop of `Run`, a turn for each round, over a schedule that says which event
--     `select` takes; Client/Shutdown and Client/Unplugged are about it. Client/Start: `New`, and `Run` up
--     to its loop. Client/Pump: its goroutine that reads the socket, beside the calls on the
--     connection, and the one that reads the input; Client/Noise is about the first.
--     Client/Answers follows `filterInput` through a run of input.
--   Client/Resize: internal/client/resize_unix.go and resize_windows.go, each with its reader in `Run`.
--   Termenv: internal/termenv/termenv.go, vt_other.go and vt_windows.go. Termenv/Restored is about them.
--   Cmd/Target, Cmd/Auth, Cmd/Session, Cmd/Attach: cmd/gosh/root.go (`splitTarget`; `authMethods`;
--     `runSession` and the connect command; `runClient` as a trace of effects). Cmd/Attach/Modes runs the
--     trace on the terminal of Termenv, and Cmd/Session/Verified is about what stands behind a session,
--     Cmd/Session/Trusted about its host's key,
--     and Cmd/Session/Connected about the connect command.
--   Base: lists, results, bits, byte order and signed numbers that the others share. The Tests modules
--     run the definitions and the theorems on concrete input.
--
-- Conventions. A byte slice is a list of numbers; nil and the empty slice are one list, and where the
-- code tells them apart an Option does. A uint64 is a number below 2 ^ 64 and wraps where the code's
-- does. An error is a value of the module's error type. A visitor's closure is a state that the walk
-- passes on. Times are numbers of milliseconds.
--
-- Fuel. `parseFields` is given a round for each byte, and each round takes one at least; the filter's
-- loop is given three rounds for each byte and three more, as a byte is read again twice at most;
-- `makeFragments` is given a round more than the payload has bytes, and each takes a byte at least where
-- the MTU is above the header's length. The loop of `Run` takes a turn of its schedule in each round.
--
-- Parameters. Compression is a `Zlib`, a record of what compress/zlib is used for, with the documented
-- law that reading gives back what was written, up to the limit. The block cipher of crypto/aes is a
-- `Block` that permutes blocks; encoding/base64 is a `Base64`. The package knownhosts is a `KnownHosts`
-- that reads lines, and the files are a state, changed as an `Os` lets them be; the SSH connection is an
-- `SshServer`, and sockets and pipes with their peers are a `System`. What a socket does during a `Send` is a `Link`, and what a
-- connection answers a sender is a `Conn`. The files that a callback leaves behind a dial, in which `acceptNew`
-- may append, are seen by the theorems on it alone: `runSession` gives those that it dials with.
--
-- A terminal is a pair of modes, which a `System` lets be changed; what a raw dial does is a `RawDial`, and
-- Go's floats are a record `Floats` of their operations.
--
-- Not modelled: the flags, the version command and the texts of prompts and errors (cmd/gosh); locks, the
-- deadlines of a socket and the getters of a connection (internal/network); the capacity of the filter's
-- buffer; the messages on standard error but the last.
pub mod Base
pub mod Wire
pub mod Osc52
pub mod Transport
pub mod Statesync
pub mod Crypto
pub mod Network
pub mod Client
pub mod Ocb
pub mod Bootstrap
pub mod Cmd
pub mod Termenv
