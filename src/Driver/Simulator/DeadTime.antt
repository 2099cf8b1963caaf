-- ===== src/Driver/Simulator/DeadTime.antt =====
-- The dead time of the simulated process.
use bhtune.Common.{ℕ, ◌≡◌, refl, ◌∙◌, ap, List, [], ◌∷◌, ◌++◌, length, take, ◌&&◌, if◌then◌else◌}
use mathlib.Core.List.{append_assoc}
use bhtune.Float.{Floats}
use bhtune.Driver.Simulator.{
  FopdtConfig, Simulation, FopdtProcess, replicate, new_process, set_mv, step_process,
}

module _ {F D G : Type 0} (fl : Floats F D) (sim : Simulation F G) where
  -- One tick for each MV: it is written, and then the process steps. The PVs that come out.
  pub run_process : List F → FopdtProcess F G → List F
  run_process [] p = []
  run_process (mv ∷ mvs) p =
      let (pv, p') = step_process fl sim (set_mv fl sim mv p) in pv ∷ run_process mvs p'

  -- The decay factor of one tick, and the number of ticks that the dead time takes.
  pub decay_per_tick : FopdtConfig F → F
  decay_per_tick c =
      if fl.lt (fl.literal 0 0) c.time_constant_s
      then sim.exp (fl.div (sim.neg c.tick_interval_s) c.time_constant_s)
      else fl.literal 0 0

  pub dead_ticks : FopdtConfig F → ℕ
  dead_ticks c =
      if fl.lt (fl.literal 0 0) c.dead_time_s && fl.lt (fl.literal 0 0) c.tick_interval_s
      then sim.ceil_usize (fl.div c.dead_time_s c.tick_interval_s)
      else 0

  -- The exponential approach from `pv` to the steady state of the effective MV `e`.
  pub approach : FopdtConfig F → F → F → F → F
  approach c bias pv e =
      let decay = decay_per_tick c in
      fl.add (fl.mul pv decay)
        (fl.mul (fl.sub (fl.literal 1 0) decay) (fl.add bias (fl.mul c.gain e)))

  -- The PV with its noise, which is drawn only where its amplitude is above zero.
  pub drawn : FopdtConfig F → G → F → F × G
  drawn c rng pv =
      if fl.lt (fl.literal 0 0) c.noise_amplitude
      then (let (n, rng') = sim.noise rng c.noise_amplitude in (fl.add pv n, rng'))
      else (pv, rng)

  -- A first-order lag without a dead time, at these effective MVs.
  pub lag : FopdtConfig F → F → F → G → List F → List F
  lag c bias pv rng [] = []
  lag c bias pv rng (e ∷ es) =
      let (pv', rng') = drawn c rng (approach c bias pv e) in pv' ∷ lag c bias pv' rng' es

  run_process-lag :
      (mvs : List F) (c : FopdtConfig F) (bias pv mv : F) (line : List F) (rng : G)
      → run_process mvs (record {
        config = c;
        bias = bias;
        decay = decay_per_tick c;
        pv = pv;
        current_mv = mv;
        mv_delay_line = line;
        rng = rng;
      })
        ≡ lag c bias pv rng (take (length mvs) (line ++ mvs))
  unfolding run_process lag drawn approach decay_per_tick step_process set_mv
  run_process-lag [] c bias pv mv line rng = refl
  run_process-lag (m ∷ mvs) c bias pv mv [] rng =
      let (pv', rng') = drawn c rng (approach c bias pv m) in
      ap (λ l. pv' ∷ l) (run_process-lag mvs c bias pv' m [] rng')
  run_process-lag (m ∷ mvs) c bias pv mv (x ∷ line) rng =
      let (pv', rng') = drawn c rng (approach c bias pv x) in
      ap (λ l. pv' ∷ l)
        (run_process-lag mvs c bias pv' m (line ++ m ∷ []) rng'
          ∙ ap (λ l. lag c bias pv' rng' (take (length mvs) l)) (append_assoc line (m ∷ []) mvs))

  -- From its start, the process answers a sequence of MVs exactly as a first-order lag without dead
  -- time answers the same sequence later by the number of ticks that the dead time takes, rounded up
  -- (none, where the dead time or the tick is not above zero), with the initial MV before it. The lag
  -- approaches the bias plus the gain times its MV by the factor exp(-tick / time constant) for each
  -- tick, or at once where the time constant is not above zero, and adds the noise: whatever the
  -- floats and the noise are.
  pub run_process-new_process :
      (c : FopdtConfig F) (pv mv : F) (seed : ℕ) (mvs : List F)
      → run_process mvs (new_process fl sim c pv mv seed)
        ≡ lag c
            (fl.sub pv (fl.mul c.gain mv))
            pv
            (sim.seed_from seed)
            (take (length mvs) (replicate (dead_ticks c) mv ++ mvs))
  unfolding new_process decay_per_tick dead_ticks
  run_process-new_process c pv mv seed mvs =
      run_process-lag mvs c (fl.sub pv (fl.mul c.gain mv)) pv mv (replicate (dead_ticks c) mv)
        (sim.seed_from seed)
