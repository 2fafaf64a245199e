-- ===== src/Lib.antt =====
-- EEBusTracer records the EEBUS traffic between devices, decodes it and analyses the trace. This
-- library models its core in Go: the decoders that turn bytes into messages, the engine that runs
-- the captures, the hub that hands events to the browsers, the monitor of devices on the network,
-- and the analyses over the messages of a trace.
--
-- How the parts interact. A capture source reads bytes (for DLT: frames, which may hold a JSON text
-- that is complete only after several of them) and hands payloads to the engine. The engine numbers
-- each, has it parsed, counts it, stores it, and calls its callbacks, of which the hub's broadcast is
-- one. A log file is imported line by line, or frame by frame, by the parts that decode what a source
-- delivers. The analyses later take the stored messages in their order: the subscription tracker, the
-- heartbeat gaps, which the LPC checks read, the flow, the connections, the use cases, and the
-- lifecycle checklist, which reads the tracker's result.
--
-- Files and sources:
--   Prelude       shared tests, lists, maps as association lists, integers
--   Model         internal/model/message.go, enums.go; Model/Payload the JSON values
--   Parser        internal/parser/parser.go (Parse), normalize.go, FillFromSpine in dltbin.go;
--                 Parser/Ship is ship.go, Parser/Spine and Parser/Fixup are spine.go,
--                 Parser/Messages the builder of messages, Parser/Library what is taken from
--                 other modules
--   Dlt/Bytes, Dlt/Frame         internal/parser/dltbin.go (ReadDLTMessage, ReadDLTMessageStream);
--                 Dlt/Frame/Wire is an encoder, written from the layout in the comments there
--   Dlt/CompleteJson, Dlt/Patterns, Dlt/Extract
--                 internal/parser/dlt.go, DLTFrameToMessage in dltbin.go
--   Logs          internal/parser/logformat.go; Logs/Regexp is a matcher for the expressions
--   Import        internal/store/logimport.go; Import/Eet is fileio.go, Import/Auto the choice of
--                 a format
--   Engine        internal/capture/capture.go, stats.go
--   Filter        internal/capture/source_dlt.go (DLTFilter)
--   Hub           internal/api/hub.go; Hub/Visits, Changes and Sent are the lemmas of Hub/Order
--   Mdns          internal/mdns/monitor.go (handleEntry, sweep, parseTXTRecords)
--   Subscriptions internal/analysis/subscriptions.go; Subscriptions/Payload reads the payloads,
--                 Subscriptions/Tables holds the maps with their order
--   Heartbeat     internal/analysis/metrics.go (collectHeartbeatGapsByPair)
--   Lpc           internal/analysis/lpc_conformance.go (roles, heartbeat checks, summary)
--   Flow          internal/analysis/flow.go
--   Lifecycle     internal/analysis/lifecycle.go; Lifecycle/Specs has the tables of requirements
--   Discovery     internal/spineparse/spineparse.go; Discovery/Slots and Discovery/Placed follow the
--                 pointers into the slice of entities; Discovery/Merge is mergeDiscoveryEntities
--                 in cmd/eebustracer/devices.go, Merged and Joined what it keeps
--   UseCases      internal/analysis/usecases.go; UseCases/Payload reads the announcements
--   Connections   internal/api/connections.go; Connections/Either is the map that keeps one entry
--                 for a pair and its reverse
--   WriteTracking internal/api/writetracking.go (buildEffectiveState)
--   DeviceNames   internal/analysis/depgraph.go (ShortDeviceName, matchesEntityType)
--   Tests         runs and the theorems at concrete inputs
-- A record has the fields of the Go struct, a function the name of the Go function in lower case.
--
-- State and steps. The engine with its goroutines, the hub with its pumps and the monitor are step
-- relations or runs over lists of events; a step takes a mutex once or changes one counter or
-- channel, so that a broadcast, a Stop and the callback of a capture are several. A Go map is an
-- association list, and where the source keeps the order of its keys in a slice, the model keeps
-- both; a missing key of such a map is the panic that the source would have.
--
-- Numbers. Bytes, counters, ids and times are natural numbers; a time is its nanoseconds since Go's
-- zero time. The lengths of DLT frames keep their 16 bits and both byte orders, `uint` fields of a
-- payload their 64 bits, and differences of times saturate as time.Duration does. Counters do not
-- wrap around.
--
-- Fuel. The loop over the arguments of a DLT payload has the payload's length as fuel: each round
-- takes six bytes or more. The import of a binary file has one more than its bytes, as each frame
-- takes some. The digits of a `uint` have fuel 20, as 2^64 has 20 digits.
--
-- Texts. A text that the source takes apart is its list of bytes, and white space is that of ASCII; a
-- text that it only compares or joins is a String. A regular expression is matched as package regexp
-- does: leftmost, with the first alternative and the longest run tried first.
--
-- Other modules. What ship-go and spine-go decode of a JSON value, and the value of a JSON text, are
-- functions in the record Decoders, of which nothing is assumed. What encoding/json reads of a text
-- into the struct of an .eet file is a function as well.
--
-- JSON. A RawMessage is the value that its bytes encode. Members of an object are found by their exact
-- names, where encoding/json would also take another case. Where the source uses the text of a
-- RawMessage, as the address of an entity, that is a function of its value.
--
-- Slices. Where the source keeps pointers into a slice that it appends to, the slice has an array with
-- a capacity, and the capacity of a new array is a function of the length, of which nothing is assumed.
--
-- Not modelled: sockets, files, timers and HTTP; SQL; floating-point statistics; the callbacks that
-- are registered with the engine.
-- What fmt prints of a number in a summary is an argument.
pub mod Prelude
pub mod Model
pub mod Parser
pub mod Dlt
pub mod Subscriptions
pub mod Heartbeat
pub mod Lpc
pub mod DeviceNames
pub mod Flow
pub mod Lifecycle
pub mod WriteTracking
pub mod Discovery
pub mod UseCases
pub mod Connections
pub mod Hub
pub mod Logs
pub mod Import
pub mod Mdns
pub mod Engine
pub mod Filter
mod Tests
