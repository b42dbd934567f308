-- ===== src/Lib.antt =====
-- PerfWeave: agents on GPU nodes collect metrics, kernels and other events, and stream them to a
-- server, which shows recent metrics live and stores the rest in ClickHouse. A library loaded into CUDA
-- processes feeds the agent. This library models the way of an event from a CUDA process over the
-- agent's ring to the server's live ring and its tables.
--
-- Parts, with the files that model them:
--   Proto                 proto/perfweave.proto: the messages.
--   Common/Clock          crates/perfweave-common/src/clock.rs: `ClockOffset::map`, `fit_theil_sen`.
--   Common/Intern         crates/perfweave-common/src/intern.rs: `Interner`.
--   Common/Tiles          crates/perfweave-common/src/lib.rs: `TILE_WIDTHS_NS`.
--   Common/Logging        crates/perfweave-common/src/logging.rs: `init`.
--   Agent/ClockSync       crates/perfweave-agent/src/clock_sync.rs: `measure`, `OffsetHandle`.
--   Agent/Ring            crates/perfweave-agent/src/ring.rs: `EventRing`.
--   Agent/Uploader        crates/perfweave-agent/src/grpc_client.rs: the flush tick of `run_session`, and
--                         the waits of `run`; Agent/Uploader/Session has `run` with its sessions whole.
--   Server/Ingest         crates/perfweave-server/src/ingest/grpc.rs: `ingest`.
--   Server/Registry       the same file's `register`, and crates/perfweave-server/src/replay.rs.
--   Server/Skew           crates/perfweave-server/src/ingest/skew.rs: `SkewTable`.
--   Server/FastRing       crates/perfweave-server/src/fast_ring.rs: `SeriesRing`, `FastRing`.
--   Server/Sink           crates/perfweave-server/src/store/sink.rs: rows, `Sink`, `absorb`, `flush`, `run`.
--   Server/Lod            crates/perfweave-server/src/api/lod.rs.
--   Server/Timeline       crates/perfweave-server/src/api/timeline.rs and api/arrow_tile.rs: `handler`.
--   Server/Graphql        crates/perfweave-server/src/api/graphql.rs, with `profile_kernels` of replay.rs.
--   Server/Migrations     crates/perfweave-server/src/store/migrations.rs: `split_statements`, `apply`.
--   Agent/Tegra           crates/perfweave-agent/src/sampler/tegra.rs: `is_tegra`, `discover_paths`, `build_frame`.
--   Agent/Nvml            crates/perfweave-agent/src/sampler/nvml.rs: `run`, `build_frame`.
--   Agent/Synthetic       crates/perfweave-agent/src/sampler/synthetic.rs: what a tick pushes.
--   Server/Imports        crates/perfweave-server/src/api/imports.rs: `import_nsys`.
--   Inject/Callback       crates/perfweave-cupti-inject/src/callback.rs: `translate_nvtx_callback`.
--   Cli/LocalAgent        crates/perfweave-cli/src/local_agent.rs: `run`.
--   Cli/Start             crates/perfweave-cli/src/main.rs: `cmd_start`, `cmd_run`, `cmd_import`.
--   Flow                  no code of its own: the uploader, the ingest stream and the sink together.
--   Server/App            crates/perfweave-server/src/api/app.rs: `run`, `make_router`,
--                         `nsys_import_handler`, and src/main.rs.
--   Agent/Replay          crates/perfweave-agent/src/rpc_server.rs: `profile_kernels`.
--   Server/SpikeDetect    crates/perfweave-server/src/spike_detect.rs: `SpikeDetector`.
--   Server/Live           crates/perfweave-server/src/live.rs: `build_metric_frame`, the ticker, the streams.
--   Inject/Activity       crates/perfweave-cupti-inject/src/activity.rs: `parse_record`.
--   Inject/Pm             crates/perfweave-cupti-inject/src/pm.rs: `HostSampler`, `classify_bound`.
--   Inject/Ship           its lib.rs and transport.rs: `ship`, `connect`, `reconnect`.
--   Agent/Cupti           crates/perfweave-agent/src/sampler/cupti.rs: `run`, `handle_conn`.
--   Agent/Start           crates/perfweave-agent/src/main.rs and config.rs, with the `AgentHello` of
--                         grpc_client.rs.
--   Cli/Doctor            crates/perfweave-cli/src/doctor.rs: `run` and its checks.
--   Cli/ValidateClocks    crates/perfweave-cli/src/validate_clocks.rs: `run`.
-- A function has the name that it has in the source, but for `push_series`, `snapshot_series`,
-- `map_ts`, `record_text` and `register_agent`, which are methods named `push`, `snapshot`, `map`,
-- `record` and `register` there, and for parts of a function that have a name of their own here.
-- A file below a part holds its properties, and the `Tests` files runs at concrete inputs.
--
-- How the parts interact: the uploader drains the ring, corrects time stamps by the current fit, and
-- sends a batch with the fit. The ingest stream takes the fits into the skew table, corrects by it,
-- pushes metrics to the live ring, and hands the rest to the sink. `Flow` joins them: the batches that
-- the uploader sends are those that the stream receives, and what the stream hands over is what the sink
-- absorbs.
--
-- Conventions: a `u64` is a number, and every sum that may pass its width is written with its
-- wrap-around, as in a release build. An `i128` is an integer with `wrap_i128` or `saturate_i128`. A
-- float is its bit pattern; the operations on floats are the record `Floats`, a parameter. A hash map is
-- a list of pairs without a promise on its order. A reading of the host clock is an argument `now`. A
-- list of inputs stands for what a task receives: each is one turn of its loop. A text that the code
-- takes apart or puts together is the list of its code points.
--
-- Fuel: `drain_frames`, whose loop ends when the lane is empty, and `handle_conn`, whose loop ends with
-- the connection, run on fuel; one more than the number of queued frames, or of bytes, is enough. The
-- decimal print of a number runs on twenty rounds, since no 64-bit number has more digits.
--
-- Code outside the repository is a parameter: the hash of the interner, the bounded channel of the ring
-- (the record `Channel`, with its documented behaviour, which `Bounded` shows can hold), the getters
-- of protobuf enumerations (the record `Getters`, which `Proto/Defaults` shows can hold), the protobuf
-- encoding, the outcome of each insert into ClickHouse and of each query, the Arrow and HTTP libraries,
-- the gRPC client to the agents, the tool that exports reports, and the file system.
--
-- Not modelled: the timers and tasks, the foreign calls of the injection library, the parsing of the
-- command line, the layers of HTTP, and the web client.
pub mod Base
pub mod Proto
pub mod Common
pub mod Agent
pub mod Inject
pub mod Server
pub mod Cli
pub mod Flow
