-- ===== src/Lib.antt =====
-- The core of an industrial gateway that polls Modbus devices and shows their tags over OPC UA, as
-- pure functions on explicit states, with its properties.
--
-- Parts and files. Paths are from the repository's root.
--   Domain        Src/domain: qualities, values, errors (`Result` is std::expected), with_quality.
--   Project       Src/project/types.hpp: the data of a project file; Expand, the expansion of device
--                 profiles in Src/project/load.cpp.
--   Index         Src/core/runtime_index: RuntimeIndex::build numbers every tag of a project; lookups.
--   Translator    Src/core/translator.cpp: registers to engineering values (decode) and back (encode).
--   TagStore      Src/core/tag_store: the last value of each tag, and its subscribers.
--   Modbus        Src/adapters/modbus_protocol: MBAP frames, request PDUs, response decoding, and the
--                 client operations over a transaction function that is a parameter.
--   Historian     Src/adapters/ring_historian: a ring of the newest samples.
--   Dispatcher    Src/core/dispatcher.cpp: reads the tags that are due through a transport (poll_due,
--                 poll_group, poll_tag, and the asynchronous variants), decodes them and publishes
--                 them in the tag store; queues writes (enqueue_write) and sends them (flush_writes).
--   Doctor        Src/core/runtime_doctor.cpp: the findings on an index and the tag store.
--   Transport     Src/adapters/modbus_udp_transport.cpp (Udp) and modbus_tcp_transport.cpp (Tcp,
--                 TcpAsync): transactions over a socket that is a parameter, each with a frame in the
--                 journal (Src/ports/i_frame_log.hpp).
--   Replay        Src/adapters/frame_replay.cpp: a transport that answers from a journal; Text, the
--                 error and the bytes of a journal's line (with Src/adapters/frame_log.cpp).
--   Cli           Src/app/cli_options.cpp: the options of the command line, and the settings that a
--                 user can ask for (Settings).
--   Csv           Src/project/import_csv.cpp: splitting a line into its fields.
--   Runtime       Src/app/server_runtime.cpp: starts and stops the dispatcher with its transports,
--                 the historian and the OPC UA facade (Start), ticks of the endpoints and the
--                 completions of the polls they launch, as steps that interleave (Tick), and
--                 the periods of the ticks (Periods).
--   Gateway       what holds of polling in a project that Project.Validate (Src/project/validate.cpp)
--                 accepts.
--   Prelude       helpers: tests, lists, integers, maps, texts. Samples: data that the tests run on.
-- The dispatcher uses the index for its tags, groups and endpoints, the translator for registers,
-- the store for values, and a transport, which Modbus frames serve, through Dispatcher.State.Ports.
-- The runtime calls the dispatcher; the transports call the client operations of Modbus with their
-- transaction as its parameter; a replay reads the frames that a transport journalled.
--
-- How the code corresponds. A function of the source has the same name here in snake case; a method
-- takes the object's state and gives it back beside its result. Helpers by clauses stand for blocks
-- of a function, as the comment beside each says. An unordered map is an association list whose
-- entries are read through `lookup`. A vector index out of range is `none` where the source does not
-- check it. A narrowing cast is written as a remainder. Metrics are the list of events sent to their
-- port.
--
-- Parameters. Platform.Floats is the platform's float and double with the operations used, and
-- Platform.IntegerLaws what IEEE 754 says of them on integers of at most 53 bits. Dispatcher.State.Env
-- is the transport and the clock, functions on a world that they change, and what reading registers
-- out of range would make of decoding. Transport.Udp.Socket and Transport.Tcp.Stream are the calls of
-- POSIX and of asio, Transport.Clocks the wall clock and the steady clock, and Runtime.Facades the
-- transport factory, the historian and the OPC UA facade; each acts on the same kind of world.
-- The parsing of the command line takes std::stoi.
--
-- Loops are structural. The loop of flush_writes runs on fuel, the length of the batch: a round
-- takes at least the first write off the batch, so the fuel cannot run out before the batch does.
--
-- Not modelled: threads and mutexes (calls are in sequence, so a write that is queued while a flush
-- runs is not covered), completions of a transport's calls that come later than the call (the polls
-- that ticks launch are steps of their own, but each is one step), spans of the tracer, JSON loading
-- and its schema, the numbers in a journal's lines, what becomes of the fields of a CSV file,
-- the asio reactor, OPC UA, SQLite, logs, the usage text and the Studio front end, which are outside of
-- the modelled files or only call other libraries.
pub mod Prelude
pub mod Domain
pub mod Project
pub mod Platform
pub mod Index
pub mod Translator
pub mod TagStore
pub mod Dispatcher
pub mod Historian
pub mod Modbus
pub mod Gateway
pub mod Cli
pub mod Csv
pub mod Doctor
pub mod Transport
pub mod Replay
pub mod Runtime
pub mod Samples
