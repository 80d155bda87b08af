-- ===== src/Lib.antt =====
-- Go2NetSpectra: a verification library for a network traffic monitor. Probes send packet metadata to
-- an engine, which feeds it to tasks; a task counts flows exactly or in a sketch, and its snapshots
-- go to ClickHouse, which the query service reads. An AI service streams analyses to its clients.
--
-- Files, and the code that each is about:
--   Base            numbers, lists, byte texts, association lists, sorting, machine words
--   Murmur          internal/engine/impl/sketch/statistic/hash.go: MurmurHash3
--   CountMin        internal/engine/impl/sketch/statistic/count_min.go and sketch.go: NewCountMin is
--                   new_count_min, Insert is insert_flow, Query is query, HeavyHitters is
--                   heavy_hitters, Reset is reset
--   HyperLogLog     internal/engine/impl/sketch/statistic/super_spread.go, GeneralHLL and encode
--   SuperSpread     the rest of that file: NewSuperSpread, Insert, Query, HeavyHitters, Reset
--   Packet          internal/model/packet.go, and the names of the key fields
--   SketchTask      internal/engine/impl/sketch/task.go: fieldByteSize, EncodeFlow,
--                   generateFlowAndElem and DecodeFlow, which make and show the sketches' keys
--   CountTask       the same file: New, ProcessPacket, Query, Snapshot and Reset of a task over a
--                   count-min sketch (sketch type 0)
--   SpreadTask      the same for a task over a spread sketch (sketch type 1)
--   ExactTask       internal/engine/impl/exact/task.go and statistic/flow.go: New is new_task,
--                   ProcessPacket is process_packet, Query is query, and the totals of AlerterMsg
--   AlertRules      AlerterMsg and check of both kinds of task
--   Writers         writer_clickhouse.go and writer_gob.go of internal/engine/impl/exact, and
--                   writer_clickhouse.go and writer_text.go of internal/engine/impl/sketch
--   Factory         internal/factory/task_factory.go: RegisterAggregator and Create
--   TaskGroups      the factories that internal/engine/impl/exact/task.go and sketch/task.go register
--   Manager         internal/engine/manager/manager.go: its goroutines as steps; Manager.Exact puts
--                   the exact task into it
--   StreamAggregator  internal/engine/streamaggregator/stream_aggregator.go, around a manager
--   Alerter         internal/alerter/alerter.go and internal/notification/notifier.go
--   PacketCodec     internal/probe/packetcodec.go: MarshalPacketInfo and UnmarshalPacketInfo
--   Parser          internal/protocol/parser.go: ParsePacketInto and ParsePacket
--   Persistent      internal/probe/persistent/worker.go: its goroutines as steps
--   Probe           internal/probe/publisher.go and subscriber.go
--   Pcap            pkg/pcap/reader.go
--   Prompt          internal/ai/prompt_sessions.go, and its calls in internal/ai/server.go
--   Analyzers       internal/ai/alerter_analyzer.go and common_analyzer.go, which run the sessions
--   Query           internal/query/querier.go: the three queries, their arguments and their rows
--   Api             internal/api/grpc_server.go, with the writers of internal/config/config.go, and
--                   in Api.Grafana the endpoint of internal/api/http_server.go
-- The modules below each of these hold its theorems, and its Tests the runs at concrete inputs.
--
-- How the code is modelled. A byte slice or a string is a list of byte values. A word of w bits is a
-- number below 2 ^ w, and its wrap-around is written out; a signed integer, and a time as UnixNano, is
-- its two's complement pattern. A Go map is an association list in the order of one traversal. A
-- method under a mutex is one step. Insert of the sketches is the code of one goroutine that runs
-- alone, in which every compare-and-swap succeeds at once; CountMin.Shared has the steps of several on
-- one cell. Where goroutines share state, the model has one event for each thing that one of them does
-- between two points where another may run, and a data type Reach of what any order of events reaches;
-- a step that blocks is not taken, and a panic ends the run. A channel is a list with its capacity and
-- whether it is closed. A list of what was accepted, or a log of what was done, that the code does not
-- keep records the past for the theorems. A panic elsewhere, such as an index out of range, is
-- a result of its own, `none` or `panic`. Sorting is insertion sort, by the same order.
--
-- Parameters stand for what is not in the repository: the printing of addresses (ip_string), the
-- seeded hash that picks a shard (shard_hash), the random generators (rand, seed), float64 (Floats),
-- the Thrift serializer (write, read), the layers that gopacket decodes (RawPacket), the ClickHouse
-- connection (connect, Connection) with the rows of its results, which may break off (DriverRows),
-- batches and files (Batch, Files), the AI client, the mail server, NATS, JSON and the clock.
--
-- Fuel. The decimal digits of n are computed with fuel n + 1. The loop of leadingZeros32 has fuel 32,
-- the width of its word. No other definition has fuel.
--
-- Not modelled: interleavings in the loop on a cell's size and in the Insert of the spread sketch, the
-- wait of Stop and the select of Read in the prompt sessions, the alerter's start and end inside the
-- manager's, the buffered writer of the persistent worker's text encoding with its last Flush, times
-- outside the range of UnixNano (such as the zero time), a slice's capacity beyond its length, the
-- tasks of the sketch factory, the loading of the configuration, and the input and output of the
-- commands and scripts. The opening of database connections is I/O, and the Thrift code is generated.
pub mod Base
pub mod Murmur
pub mod CountMin
pub mod Packet
pub mod SketchTask
pub mod ExactTask
pub mod Prompt
pub mod PacketCodec
pub mod Parser
pub mod Query
pub mod Api
pub mod HyperLogLog
pub mod SuperSpread
pub mod CountTask
pub mod Persistent
pub mod AlertRules
pub mod Alerter
pub mod Writers
pub mod Pcap
pub mod Probe
pub mod Factory
pub mod Manager
pub mod StreamAggregator
pub mod Analyzers
pub mod SpreadTask
pub mod TaskGroups
