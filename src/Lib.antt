-- ===== src/Lib.antt =====
-- sendme sends files over QUIC: a provider serves collections of blobs by their hashes, a client that
-- has the provider's token asks for a collection and gets it with its blobs, verified.
--
-- The parts and their files (all paths under src/ of the repository):
--   protocol.rs (messages, frames, token, close codes): Protocol and its children. Codec has the
--     messages, Frames `write_lp`, `read_lp`, `read_lp_data` and their loops, Token and Closed the rest.
--   util.rs (hash and base64): Util.   blobs.rs (`Collection`, `Blob`): Blobs.
--   provider.rs: Provider. Database is the map behind `Database`; Transfer has `write_response`,
--     `send_blob` and `transfer_collection`; Session has `handle_stream` with `read_handshake` and
--     `read_request`; Create has `compute_outboard` and `create_collection`; Service has `Builder` and
--     `Provider`, its child Loop the accept loop, and its child Streams `handle_connection`, where the
--     tasks of all streams send their events interleaved.
--   get.rs (`run`, `handle_blob_response`): Get, with `Options` and `setup` in Get/Setup. Get/Keeps has
--     the client with any caller that takes whole blobs.
--   progress.rs (`ProgressEmitter`): Progress, and its child Threads for increments on several threads,
--     one atomic access at a time.
--   tls.rs (`PeerId`, `Keypair`, the two configurations), tls/certificate.rs, tls/verifier.rs: Tls and its
--     children PeerId, Keypair, Config, Certificate and Verifier, with the theorems in Accepted, Schemes,
--     Generated and Configured.
--   provider.rs (`Ticket`): Ticket.   main.rs (`Blake3Cid`): Cid.
--   main.rs (the commands): Cli. Dispatch has the match of `main`, Output the callbacks and
--     `get_interactive`, Keys `get_keypair`, and Provide `provide_interactive`.
--   lib.rs (the integration tests): Integration, as programs over their files and the network; its
--     child Creates has `test_create_collection` of provider.rs.
-- Exchange puts the client and the provider on one stream, its child Created the creation of the
-- collection before them, and Cli/Ticketed the command line around them, from the provider's files to
-- the client's. Provider/Session/Entries has the database as the map that it is. Io has the results of
-- fallible code (a value, an error, or a panic) and the monad of the actions that change a state.
-- Stream and Sink are the receiving and sending half of a stream. Base has what all modules share,
-- Tests a concrete environment and runs of the program in it.
--
-- How the code corresponds: an `async fn` with mutable arguments is an action on a record of those
-- arguments, which returns an `Outcome` with the changed record, also on an error. An `await` on a
-- stream is a step on the record; the stream's behaviour is data, a `Reader` of chunks that may end or
-- fail at any point and a list of answers to the writes, so that every statement about all streams is
-- one about all cuts and faults. A hash map is an association list with one entry for each key.
--
-- Parameters: postcard's codecs, abao's encoder and slices, and the file system are the fields of
-- `Env`; abao's decoder is `Decoding`; base64 is `Base64`, a serde format `Format`; base32 and
-- multibase are `Engines`; X.509, DER and the signature schemes are `Crypto`; ssh_key and the
-- signing are `KeyCrates`; rcgen and rustls are `Rcgen` and `Rustls`; the endpoints of quinn are
-- `Listen` and `Quinn`, and what a provider's `select!` finds, the cancellation token included, is
-- a list of `Turn`s; the file system of the command line and of the tests is `Files`; the callbacks
-- of `run` are `Callbacks`. What is asked of them is a hypothesis of the theorem, such as
-- `IsLawful`, `Abao` or `Verifies`, and holds of the concrete ones in Tests.
--
-- Bounds: the native numbers stand for the machine's, with the wrap-around of `u64` and `u16` written
-- out where the code adds or casts; a `usize` has 64 bits. No function runs on fuel: the loop of the
-- reads recurses on the bytes still to be read, the other loops on lists.
--
-- Interleavings: the tasks of the streams and the threads of the progress emitter are step relations,
-- whose reachable states the theorems are about; any number of them may run.
--
-- Not modelled: quinn's transport below its streams, the timeouts of the tests but for a wait that
-- nothing ends, events that a slow subscriber loses, the progress bar, the parsing of the command line,
-- the wording of messages, logging, and the clock.
pub mod Base
pub mod Io
pub mod Stream
pub mod Sink
pub mod Util
pub mod Protocol
pub mod Blobs
pub mod Env
pub mod Provider
pub mod Get
pub mod Exchange
pub mod Integration
pub mod Progress
pub mod Tls
pub mod Cid
pub mod Cli
pub mod Ticket
pub mod Tests
