-- ===== src/Lib.antt =====
-- bhtune tunes PID loops by relay feedback: it steps a loop's manipulated variable (MV) up and down
-- around its initial value, watches the process variable (PV) oscillate, and computes controller
-- parameters from the period and the amplitude. This library models the domain crate,
-- crates/bhtune-core/src, which is pure code; from the runtime crate the set-up of a run from its
-- request, the polling loop of a live run, the code that judges readings and MV commands, the sample
-- times, the restore behind the MV, the guard of a live operation and the write-back of PID constants;
-- the drivers without a gateway; and of the server the registry of active runs and the checks of a demo
-- request. It proves what these parts promise each other.
--
-- A run goes through the parts in this order. A template (Template) and a PV tag give the loop's tags
-- (Tags); a loop configuration (LoopConfig), the ranges (Range) and the constants (Constants) set up the
-- engine (Mrft); the engine steps once per sample and asks for MV writes, and when it is complete it
-- hands peaks, troughs and switch times to the calculation (Tuning), which ends in the values that are
-- written to the controller, rounded as the template says (PidConfig). Handoff joins the engine with
-- the calculation. The write-back reads the three constants, writes and verifies each, and puts them
-- back if one fails; each write goes through the driver that records it first. The server's registry
-- keeps a later write-back apart from running tunes.
--
-- Which file models which code, under crates/bhtune-core/src:
--   Process       process_type.rs, controller_type.rs, direction.rs
--   LoopConfig    loop_config.rs
--   Range         range.rs
--   PidConfig     pid_config.rs
--   Template      template.rs; `parse_catalog` takes the TOML reader as an argument
--   Tags          tags.rs
--   Constants     constants.rs; the tables are in thousandths
--   Mrft/Engine   mrft.rs; `MrftEngine` has the source's fields, `step` is `MrftEngine::step`, which
--                 composes `switch_is_needed`, `perform_switch` and `finish`; `run` is the caller's
--                 loop over a list of samples
--   Tuning        tuning_math.rs: Types (records), Measure (`measure_oscillation`), Convert
--                 (`calculate_tuning_result`, `calculate_pid_parameters`, `opc_write_values`), Checked
--                 (`calculate_all_checked`), Controller (`controller_pid_values`)
-- and under crates/bhtune-runtime/src/tune:
--   Runtime/Outcome    outcome.rs; `Quality` is the enum of bhtune-driver
--   Runtime/Quality    quality.rs, over the driver's answer and the number parser as arguments
--   Runtime/Actuation  actuation.rs: the tracker of an accepted MV command, its tolerance and its
--                      wake-ups; Verify is `finalize_pending_mv_verification`. A call of the audit
--                      table is returned with the result, and a parameter answers it
--   Runtime/World      what a live run awaits. `World` answers for the clock, the driver, the database
--                      and the branch of `select!`, in whatever way; `Link` keeps it with the tracker
--                      and the trace of the MV writes and the database calls
--   Runtime/Tracking   actuation.rs, the code that awaits: recording an accepted command, the bounded
--                      read of a pending one (Reading) and what each way of the read leaves
--   Runtime/Poll       poll.rs: `PollState` is what `run_polling_loop_with_timing` holds; Body is the
--                      branch of a poll, with its read in Read and the engine's step and its actions
--                      in Stepping; Loop is one turn, the loop and the function. Trace, Links, Ticks
--                      and Safety carry the invariant of the loop, Run has its theorems
--   Runtime/Restore    restore.rs, the steps behind the MV; Attempts what they write
--   Runtime/Writeback  writeback.rs over a `Gateway`, which answers for the driver and the database, and
--                      a `Session` with a trace: every write sent to the driver, every read with its
--                      answer, and every change that the database made. Attempt is
--                      `write_pid_values_inner` and its callers, Results says which result has a target,
--                      Select is `maybe_write_back_with_owner`. Log, Steps, Shape and Attempts describe
--                      the trace of an attempt; Promises, Orderly and Selected have its theorems
--   Runtime/Request    request.rs: the inputs of a tune and their shared validation
--   Runtime/Setup      config.rs: the configuration and the tags that a request gives; Fixed has the
--                      theorem on the values that it fixes
-- and under crates/bhtune-runtime/src:
--   Runtime/Timing     timing.rs: `TickTimeSource` and the gaps of `PollTimingAccumulator`
--   Runtime/Revert     history.rs: the plan of a revert; Plan has its theorem
--   Runtime/Ownership  live_ownership.rs: `LiveOperationGuard` and `AuditedDriver`; Audit has the theorem
--                      on a write
-- and under crates/bhtune-driver/src:
--   Driver             driver.rs, types.rs and error.rs: the interface as a record, with a state
--   Driver/Simulator   simulator.rs; DeadTime compares the process with a lag without dead time
--   Driver/Replay      replay.rs; Order is the order in which a trace is served
--   Driver/ReadOnly    readonly.rs
-- and under crates/bhtune-server/src:
--   Server/ActiveRun   active_run.rs: the registry; Exclusion follows it through any sequence of requests
--   Server/Demo        routes/demo/validation.rs: what a demo accepts; Accepted joins it with Runtime/Setup
-- Common/Io is the monad of code that awaits. Float, Common and Tests hold the float operations,
-- shared helpers, and sample data with the theorems at concrete inputs.
--
-- Numbers. `f32` is a type `F` and `f64` a type `D` with the record `Floats` of the operations in
-- use, so that no law of real arithmetic slips in. Theorems assume nothing of it but, where they say
-- so, `SelfDiffSmall`: a value less itself is not 0.01 or more, which IEEE 754 gives, since the
-- difference is 0 or NaN. The theorems on the MV clamp and on the tolerance are about exact sums and
-- are stated for the instance `fixed` of thousandths. `u32` and `i32` arithmetic wraps
-- (Common/Word), as in a release build. Instants are nanoseconds in ℕ; the clock's upper end is
-- modelled for sample times only (`TimeRange`). Texts are lists of code points, and which of them are
-- white space or control characters is a parameter.
--
-- Bounds. Theorems on runs take a countable configuration (`IsCountable`): at least one cycle, which
-- `LoopConfig::validate` demands, and a number of switches that fits an `i32`, which it does not
-- demand. Two loops run on fuel. The bounded read has at most two rounds, so two are enough, which is
-- proved. The polling loop ends when its world ends it, by a time limit, Ctrl+C, an error or the end of
-- a test, so that no number of turns is enough for every world: its theorems hold for any number of
-- turns, hence of every prefix of a run. Every other loop is a recursion on a list.
--
-- A failed assertion and an index out of bounds are a missing result (`none`) of `measure_oscillation`.
-- The Display texts, serde's formats and the built-in catalog are not modelled: they are data and
-- formatting. In the runtime, log messages, the texts of errors and audit details beyond their fixed
-- part, and the summaries of call durations are left out; a panic of the loop's assertion on MV
-- evidence is an error of the run. In the write-back the times of rows and what a handler is told are
-- left out, and the code that acquires an owner: a lock on a file and queries of the database. A
-- gateway answers whether the heartbeat failed, at each question anew. Of the drivers, the virtual PID
-- and the fixture parser are left out, and the driver of OPC DA, which calls a gateway over the network.
-- The shutdown of the server is modelled up to the point where it waits, and is none of the moves of
-- Exclusion. The rest of the runtime crate (preparation, preflight, recovery, the MV part of the
-- restore, the live part of a revert) and the crates for the database, the rest of the server and the
-- command line are not modelled: they are input and output around these parts.
pub mod Common
pub mod Float
pub mod Process
pub mod LoopConfig
pub mod Range
pub mod PidConfig
pub mod Template
pub mod Tags
pub mod Constants
pub mod Mrft
pub mod Tuning
pub mod Handoff
pub mod Driver
pub mod Runtime
pub mod Server
pub mod Tests
