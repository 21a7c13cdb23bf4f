-- ===== src/Lib.antt =====
-- rxtracenetcap: a network capture daemon. HTTP handlers turn requests into messages, a manager
-- thread keeps the table of capture tasks and hands work to capture threads, a filter thread runs
-- protocol filters (PDEF) over captured packets, and a cleanup thread compresses what was written.
--
-- The parts and their files:
-- - Task: the task record of src/rxcapturetasktypes.h, the updaters of src/rxsafetaskmgr.h, and the
--   constructor and functors of src/rxcapturemanagerthread.cpp.
-- - TaskTable, TaskMgr: `TaskTable` and `CRxSafeTaskMgr` of src/rxsafetaskmgr.h. The manager thread
--   writes, HTTP threads read. Tasks live on an explicit heap, so that a use after `delete` is
--   undefined behaviour (`ub`). `TaskMgr.add_task` is `CRxSafeTaskMgr::add_task`, and so on by name.
-- - Bytes: the readers of src/utils/endian.h on a list of bytes, where a read outside is `ub`.
-- - Pdef.Types: src/pdef/pdef_types.h. Pdef.Compile: `compile_filter_rules` of src/pdef/parser.c with
--   its helpers. Pdef.Executor: `execute_bytecode` of src/runtime/executor.c. Pdef.Protocol:
--   `packet_filter_match` of src/runtime/protocol.c. Compiled rules are what the runtime runs, and
--   Pdef.Rules says what a rule means without its code. Pdef.Layout, Runs, Conditions, Loads, Swap,
--   Compiled, Matching, Filters, Detection and Auto hold the proofs.
-- - FilterThread: `parse_packet_data` and the packet loop of `handle_raw_file` in
--   src/rxfilterthread.cpp, which calls `packet_filter_match`.
-- - Manager: the manager thread of src/rxcapturemanagerthread.cpp, one message after the other.
--   Manager.Messages is src/rxcapturemessages.h, Manager.State the thread's state and the `World` that
--   a handler finds outside (clock, other threads, configuration), Manager.Handlers the handlers of the
--   messages about captures, Manager.Duplicates and Manager.Start the admission of a start request,
--   Manager.Json its `json_escape`. The handlers call TaskMgr and PdefUsage. Manager.Invariant, Calls,
--   Validity, Admission, Refusing, Starting, Outcomes, Closing, Updating and Usages hold the proofs.
-- - PdefUsage: the part of the manager thread that writes a detected byte order back into PDEF files
--   (`track_pdef_usage_start`, `try_writeback_pdef_endian`, `writeback_endian_to_file` and so on). The
--   files are a map from paths to contents. PdefUsage.Entry says what the messages do to one file;
--   Elsewhere, View, Edit, Safety, Waiting, Tracking and Settled hold the proofs.
-- - LockFreeQueue: the ring of src/rxlockfreequeue.c between a producer and a consumer thread, each
--   function cut into the steps between which the other thread may run. LockFreeQueue.Slots, Copies,
--   Ordered, Pushing, Popping, Fifo, Progress and Calls hold the proofs. Memory is as the acquire and release
--   operations order it, so that a step sees every earlier one; null arguments are not modelled, nor a
--   copy of more than the 65536 bytes that a packet node has.
-- - Prelude: lists, options, association maps with their laws, texts, tests and the monad of runs.
--
-- Integers: counters are modulo 2 ^ 64, packet offsets modulo 2 ^ 32. The loop of the bytecode machine
-- runs on fuel; a run that spends it is `out_of_fuel`, and for compiled code as much fuel as the
-- bytecode has instructions is enough. Times are integers without a bound, and strings hold no zero
-- byte.
--
-- Not modelled: memory allocation (it always succeeds), log output, threads other than as sequences of
-- steps, the HTTP server and the vendored JSON parser, the lexer and parser of PDEF files, libpcap,
-- the capture, cleanup, reload and sample threads. Of the manager thread, the search for processes and
-- the signature of a start request, queries over HTTP and sample alerts.
pub mod Prelude
pub mod Bytes
pub mod Task
pub mod TaskTable
pub mod TaskMgr
pub mod Pdef
pub mod FilterThread
pub mod PdefUsage
pub mod Manager
pub mod LockFreeQueue
