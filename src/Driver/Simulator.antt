-- ===== src/Driver/Simulator.antt =====
-- simulator.rs: a first-order process with a dead time, and the driver that serves it. The random
-- numbers of the noise are a parameter, as are the printing and the parsing of an `f32`. The virtual PID
-- and the texts of messages are left out.
pub mod DeadTime
use bhtune.Common.{
  ℕ, zero, suc, Bool, true, false, ◌&&◌, List, [], ◌∷◌, push, Option, none, some, if◌then◌else◌,
}
use bhtune.Common.Text.{Text, text_eq}
use bhtune.Common.Result.{Result, ok, err}
use bhtune.Float.{Floats}
use bhtune.Runtime.Outcome.{good}
use bhtune.Driver.{
  Driver, TagValue, TagWrite, float, raw, WriteOutcome, success, failure, DriverError,
  invalid_tag_value, not_supported,
}

pub record FopdtConfig (F : Type 0) : Type 0 where
  pub gain : F
  pub time_constant_s : F
  pub dead_time_s : F
  pub tick_interval_s : F
  pub noise_amplitude : F

-- `f32::exp`, unary minus, and `ceil() as usize`; `noise r a` is a number of the generator `r` from -a
-- to a.
pub record Simulation (F G : Type 0) : Type 0 where
  pub exp : F → F
  pub neg : F → F
  pub ceil_usize : F → ℕ
  pub seed_from : ℕ → G
  pub noise : G → F → F × G

pub record FopdtProcess (F G : Type 0) : Type 0 where
  pub config : FopdtConfig F
  pub bias : F
  pub decay : F
  pub pv : F
  pub current_mv : F
  pub mv_delay_line : List F
  pub rng : G

abbrev pub replicate : {A : Type 0} → ℕ → A → List A
replicate zero a = []
replicate (suc n) a = a ∷ replicate n a

-- `pop_front`, with what `unwrap_or` puts in its place.
abbrev pub pop_or : {A : Type 0} → A → List A → A × List A
pop_or a [] = (a, [])
pop_or a (x ∷ xs) = (x, xs)

module _ {F D G : Type 0} (fl : Floats F D) (sim : Simulation F G) where
  abbrev pub positive : F → Bool
  positive x = fl.lt (fl.literal 0 0) x

  unfoldable pub new_config : F → F → F → F → FopdtConfig F
  new_config gain time_constant_s dead_time_s tick_interval_s = record {
    gain = gain;
    time_constant_s = time_constant_s;
    dead_time_s = dead_time_s;
    tick_interval_s = tick_interval_s;
    noise_amplitude = fl.literal 0 0;
  }

  abbrev pub decay_of : FopdtConfig F → F
  decay_of c =
      if positive c.time_constant_s
      then sim.exp (fl.div (sim.neg c.tick_interval_s) c.time_constant_s)
      else fl.literal 0 0

  abbrev pub delay_ticks : FopdtConfig F → ℕ
  delay_ticks c =
      if positive c.dead_time_s && positive c.tick_interval_s
      then sim.ceil_usize (fl.div c.dead_time_s c.tick_interval_s)
      else 0

  unfoldable pub new_process : FopdtConfig F → F → F → ℕ → FopdtProcess F G
  new_process config initial_pv initial_mv seed = record {
    config = config;
    bias = fl.sub initial_pv (fl.mul config.gain initial_mv);
    decay = decay_of config;
    pv = initial_pv;
    current_mv = initial_mv;
    mv_delay_line = replicate (delay_ticks config) initial_mv;
    rng = sim.seed_from seed;
  }

  unfoldable pub set_mv : F → FopdtProcess F G → FopdtProcess F G
  set_mv mv p = record p { current_mv = mv }

  -- The PV that follows `pv` at an effective MV, without its noise.
  abbrev pub lagged : FopdtConfig F → F → F → F → F → F
  lagged c bias decay pv effective_mv =
      fl.add (fl.mul pv decay)
        (fl.mul (fl.sub (fl.literal 1 0) decay) (fl.add bias (fl.mul c.gain effective_mv)))

  abbrev pub with_noise : FopdtConfig F → G → F → F × G
  with_noise c rng pv =
      if positive c.noise_amplitude
      then (let (n, rng') = sim.noise rng c.noise_amplitude in (fl.add pv n, rng'))
      else (pv, rng)

  -- `FopdtProcess::step`, which returns the new PV.
  unfoldable pub step_process : FopdtProcess F G → F × FopdtProcess F G
  step_process p =
      let (effective_mv, line) = pop_or p.current_mv (push p.mv_delay_line p.current_mv) in
      let (pv, rng) =
        with_noise p.config p.rng (lagged p.config p.bias p.decay p.pv effective_mv) in
      (pv, record p { mv_delay_line = line; pv = pv; rng = rng })

pub record SimulatorDriver (F G : Type 0) : Type 0 where
  pub pv_tag : Text
  pub mv_tag : Text
  pub process : FopdtProcess F G

abbrev pub good_value : Text → Text → TagValue
good_value tag v = record { tag = tag; value = v; quality = good; timestamp = none }

abbrev pub number_of : {F : Type 0} → (Text → Option F) → TagWrite F → Option F
number_of parse (float v) = some v
number_of parse (raw text) = parse text

-- `show` is `to_string`, `parse` is `str::parse::<f32>`.
module _ {F D G E : Type 0} (fl : Floats F D) (sim : Simulation F G) (show : F → Text)
    (parse : Text → Option F) where
  unfoldable pub read_tag :
      Text → SimulatorDriver F G → Result (DriverError E) TagValue × SimulatorDriver F G
  unfolding step_process
  read_tag tag d =
      if text_eq tag d.pv_tag
      then (let (pv, p) = step_process fl sim d.process in
          (ok (good_value tag (show pv)), record d { process = p }))
      else if text_eq tag d.mv_tag
      then (ok (good_value tag (show d.process.current_mv)), d)
      else (err (invalid_tag_value tag), d)

  -- `collect` stops at the first error; what was read before it has changed the process.
  unfoldable pub read_tags :
      List Text → SimulatorDriver F G → Result (DriverError E) (List TagValue) × SimulatorDriver F G
  unfolding read_tag
  read_tags [] d = (ok [], d)
  read_tags (tag ∷ tags) d =
      let (r, d') = read_tag tag d in
      let (rs, d'') = read_tags tags d' in
      elim r [ err e ↦ (err e, d') | ok v ↦ (elim rs [ err e ↦ err e | ok vs ↦ ok (v ∷ vs) ], d'') ]

  unfoldable pub write_tag :
      Text
      → TagWrite F
      → SimulatorDriver F G
      → Result (DriverError E) WriteOutcome × SimulatorDriver F G
  unfolding set_mv
  write_tag tag v d =
      if text_eq tag d.mv_tag
      then elim (number_of parse v) [
        | none ↦ (ok (failure []), d)
        | some mv ↦ (ok success, record d { process = set_mv fl sim mv d.process })
      ]
      else (err (invalid_tag_value tag), d)

  abbrev pub simulator_driver : {N : Type 0} → Driver (SimulatorDriver F G) F N E
  simulator_driver = record {
    read = λ tags d. read_tags tags d;
    write = λ tag v d. write_tag tag v d;
    namespace = λ call d. not_supported call d;
  }
