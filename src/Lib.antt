-- ===== src/Lib.antt =====
-- A model of the Python side of the VERTEX testbed (vertex/), and what holds of it.
--
-- The testbed runs a distributed control law on a fleet of agents. A `wifi` agent computes its law
-- itself and broadcasts its state; a `ble` agent leaves both to an nRF board at the other end of a
-- serial link; a `bridge` agent has both media. A hub reads a manifest (vertex/topology), and over
-- a control connection (vertex/control) configures, starts, stops and collects the agents.
-- State goes on the air as a packet (vertex/wire), in BLE advertising data (vertex/radio) or a
-- datagram (vertex/transports), and lands in the neighbour table of each agent that hears it
-- (vertex/agent), from which the control law reads. The frames of the serial link (vertex/serial)
-- carry the parameters to the board, and its replies and reports back.
--
-- The files:
--   Common: Python's values. `Result` for what may raise (Common/Results), `Bytes` with the fields of
--     `struct` (Common/Bytes), signed integers (Common/Int), `dict` as an association list
--     (Common/Dict), and lists, tests and bits over the native numbers.
--   Wire: vertex/wire/codec.py. Packet is `StatePacket` with `__post_init__`; Codec its encodings v1,
--     v2 and v0; Monitor is `LinkStats` and `LinkMonitor.observe`. Raw, RoundTrip, Total and Reencode
--     are proofs about the codec, Accounting and InOrder about the monitor.
--   Serial: vertex/serial/proto.py and link.py. FrameType and Frame are the frames with `crc16` and
--     `build_frame`; Parser is `FrameParser`, a function for each branch of `_step`; StateReport,
--     Payload, Microgrid and Stats are the payloads; Link is `SerialLink`. Stream, Sound and
--     Contains are proofs about the parser, StateRoundTrip, PayloadLen and UsbPacket about the
--     payloads, Link/Gate, Link/Counts and Link/Chunks about the link.
--   Agent: Neighbors is `NeighborTable` of vertex/agent/neighbors.py with `Reception` of
--     vertex/transports/base.py; Relay is vertex/agent/relay.py; RunLog is vertex/agent/runlog.py;
--     Service is the commands of vertex/agent/service.py, with the table of them in
--     Service/Handlers and the life cycle they follow in Service/Lifecycle; Periodic is the pacing of
--     the loops of vertex/agent/agent.py. The other files under them are proofs.
--   Hub: Runner is `ExperimentRunner.run` of vertex/hub/runner.py; Phases and Outcome are proofs.
--   Control: Protocol, Transport, Server and Client are the files of vertex/control with those
--     names; Transport/Chunks, Transport/Blob, Transport/Exchange, Server/Loop, Server/Replies and
--     Client/Calls are proofs.
--   Topology: Models is the part of vertex/topology/models.py that concerns the graph, Validate the
--     errors of `check` in vertex/topology/validate.py; Media and Validate/Sound are proofs.
--   Radio: Ad is vertex/radio/ad.py, Hci the packets of vertex/radio/hci.py; AdRoundTrip, Hci/Commands
--     and Hci/Reports are proofs.
--   Transports: Multi is `MultiTransport` of vertex/transports/multi.py, Loopback is `LoopbackBus` of
--     vertex/transports/loopback.py, Udp is vertex/transports/udp.py; FanOut, Counting,
--     Broadcast and Udp/Delivery are proofs.
--   Clock: `VirtualClock` of vertex/clock.py, in ticks; Clock/Virtual is proofs.
--   Tests: the parts on concrete inputs.
--
-- How the parts meet. `Control.Server` serves a table of handlers over any state, and
-- `Agent.Service.Handlers` is such a table over the service; `Control.Client` reads what the server
-- writes. The service calls `Agent.Relay`, which sends the payloads of `Serial.Payload`, and opens an
-- `Agent.RunLog`. The transports carry the packets of `Wire` and hand on a `Reception`, which the
-- neighbour table takes.
--
-- How the code is rendered. A byte is a number below 256; where a function is given bytes, a theorem
-- that needs it says so with `All IsByte`. An integer of `struct` keeps its range check and its
-- two's complement. A Python integer that may be negative is a `ℤ`, another one a number. A method
-- that changes its object returns the object changed, also where it raises; a generator returns the
-- list of what it yields; the text of an exception or a note is left out. Objects are not shared
-- between the parts that are modelled, so no store of references is needed.
--
-- What is outside is an argument: the agents that a run commands (`Fleet`), the member transports of
-- a bridge (`Media`), the draws and delays of the loopback bus (`Channel`), the readings of a clock
-- and what it oversleeps, what the reader thread of a link pumps while a request waits, what a
-- request over the link answers (`RequestLink`), `json` and pydantic (`Json`), what arrives on a
-- stream and in which chunks (`StreamReader`), what an agent's service finds in its environment
-- at each command, files that fail included (`World`, `DataDir`) and in its dictionaries (`Dictionaries`), the doubles of a log (`Doubles`),
-- whether `sendto` raises, and networkx (`Networkx`). What the source relies on of them is named:
-- `Faithful` of `Json`, `IsDouble` of `Doubles`, and that networkx's descendants are reachable.
-- Commands that `asyncio.gather` issues together stand in the order of their list; no theorem about
-- them depends on that order within a phase. Commands on one control connection are answered one
-- behind the other.
--
-- Bounds. `parse_ad` and the slices of `send` run on fuel: the number of bytes, which is enough, as
-- each element or slice takes one at least; the theorems about them return the whole list. The loop
-- of `read_blob` has the number of its bytes as fuel, as each chunk has one at least, and the loop of
-- the server one more than the bytes that arrive, as each request has one at least; both are proved
-- to be enough. All other loops are structural. The parser's `_expected` is at most 256 where it is
-- packed again.
--
-- Not modelled: floating point (control laws, delivery ratios, simulation, analysis), sockets, ports,
-- threads, the BLE transport, files but for the bytes of a log's rows and the contents that a fetch
-- sends, the text formats of a log, the microgrid blocks of an assignment, how the service builds
-- its transports and controllers, the warnings and figures of the topology's report, its generators
-- and the manifest's loader, a control connection that is reset, and the firmware, which is C.
pub mod Common
pub mod Wire
pub mod Serial
pub mod Agent
pub mod Hub
pub mod Radio
pub mod Transports
pub mod Control
pub mod Topology
pub mod Clock
pub mod Tests
