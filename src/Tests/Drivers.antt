-- ===== src/Tests/Drivers.antt =====
-- The theorems on the drivers at small drivers.
use bhtune.Driver.Simulator.DeadTime.{run_process, dead_ticks, lag, run_process-new_process}
use bhtune.Driver.Simulator.{Simulation, FopdtConfig, new_process, replicate}
use bhtune.Common.{ℕ, ◌+◌, ◌≡◌, List, [], ◌∷◌, ◌++◌, Option, none, take}
use bhtune.Common.Int.{ℤ, pos}
use bhtune.Common.Text.{Text}
use bhtune.Common.Result.{ok}
use bhtune.Float.{fixed}
use bhtune.Driver.{Driver, float, success, browse, not_supported}
use bhtune.Driver.ReadOnly.{
  read_call, write_call, namespace_call, DriverCall, after_calls, read_only, all_forwarded,
  after_calls-read_only,
}
use bhtune.Driver.Replay.{ReplaySample, new_replay}
use bhtune.Driver.Replay.Order.{
  Access, read_access, write_access, pv_answers, served, pv_reads, pv_answers-new_replay,
}

-- A driver that counts its writes.
abbrev counting : Driver ℕ ℤ ℕ ℕ
counting = record {
  read = λ tags n. (ok [], n);
  write = λ tag v n. (ok success, n + 1);
  namespace = λ c n. not_supported c n;
}

abbrev calls : List (DriverCall ℤ)
calls = write_call (b'M' ∷ []) (float (pos 5)) ∷ namespace_call browse ∷ read_call [] ∷ []

after_calls-read_only_example :
    after_calls (read_only counting) calls 0 ≡ after_calls counting (all_forwarded calls) 0
after_calls-read_only_example = after_calls-read_only counting calls 0

abbrev show : ℤ → Text
show v = []

abbrev parse : Text → Option ℤ
parse t = none

abbrev samples : List (ReplaySample ℤ)
samples = record { time = 1; pv = pos 10000 } ∷ record { time = 2; pv = pos 11000 } ∷ []

abbrev accesses : List (Access ℤ)
accesses =
    read_access (b'P' ∷ [])
    ∷ write_access (b'M' ∷ []) (float (pos 5))
    ∷ read_access (b'P' ∷ [])
    ∷ read_access (b'P' ∷ [])
    ∷ []

pv_answers-new_replay_example :
    pv_answers {E = ℕ} show parse accesses (new_replay (b'P' ∷ []) (b'M' ∷ []) samples (pos 0))
    ≡ served ℕ show 2 (pv_reads (b'P' ∷ []) accesses) samples
pv_answers-new_replay_example =
    pv_answers-new_replay show parse accesses (b'P' ∷ []) (b'M' ∷ []) samples (pos 0)

-- Noise that is always zero, and an `exp` that is one half.
abbrev simulation : Simulation ℤ ℕ
simulation = record {
  exp = λ _. pos 500;
  neg = λ x. x;
  ceil_usize = λ _. 2;
  seed_from = λ n. n;
  noise = λ g _. (pos 0, g);
}

abbrev process : FopdtConfig ℤ
process = record {
  gain = pos 1000;
  time_constant_s = pos 5000;
  dead_time_s = pos 2000;
  tick_interval_s = pos 1000;
  noise_amplitude = pos 0;
}

run_process-new_process_example :
    run_process fixed simulation
      (pos 60000 ∷ pos 40000 ∷ pos 50000 ∷ [])
      (new_process fixed simulation process (pos 50000) (pos 50000) 1)
    ≡ lag fixed simulation process
        (fixed.sub (pos 50000) (fixed.mul (pos 1000) (pos 50000)))
        (pos 50000)
        1
        (take 3 (
          replicate (dead_ticks fixed simulation process) (pos 50000)
          ++ pos 60000 ∷ pos 40000 ∷ pos 50000 ∷ []))
run_process-new_process_example =
    run_process-new_process fixed simulation process (pos 50000) (pos 50000) 1
      (pos 60000 ∷ pos 40000 ∷ pos 50000 ∷ [])
