-- ===== src/Tuning/Types.antt =====
-- The records and enums of tuning_math.rs.
use bhtune.Common.{Option}
use bhtune.Constants.{ResponseLevel}

pub record Oscillation (F : Type 0) : Type 0 where
  pub period_minutes : F
  pub frequency : F
  pub pv_amp_raw : F
  pub pv_amp_percent : F

pub record TuningResult (F : Type 0) : Type 0 where
  pub response_level : ResponseLevel
  pub kp : F
  pub ti_minutes : F
  pub td_minutes : F

pub record PidParameters (F : Type 0) : Type 0 where
  pub response_level : ResponseLevel
  pub proportional : F
  pub integral : F
  pub derivative : F

pub record OpcWriteValues (F : Type 0) : Type 0 where
  pub response_level : ResponseLevel
  pub proportional : F
  pub integral : F
  pub derivative : F

pub data TuningResultStatus : Type 0 where
  valid invalid : TuningResultStatus

pub data TuningResultInvalidReason : Type 0 where
  non_finite_pv_amplitude non_positive_pv_amplitude non_finite_period non_positive_period
        non_finite_frequency non_positive_frequency non_finite_kp non_finite_ti_minutes
        non_finite_td_minutes non_finite_proportional non_finite_integral non_finite_derivative :
      TuningResultInvalidReason

pub record CheckedTuningResult (F : Type 0) : Type 0 where
  pub response_level : ResponseLevel
  pub status : TuningResultStatus
  pub invalid_reason : Option TuningResultInvalidReason
  pub tuning : Option (TuningResult F)
  pub pid : Option (PidParameters F)
