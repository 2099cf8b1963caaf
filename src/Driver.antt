-- ===== src/Driver.antt =====
-- crates/bhtune-driver/src: the driver interface, driver.rs, with its values, types.rs, and errors,
-- error.rs. A driver's calls change its state `S`. The namespace calls answer with a value of `N`, and
-- the lock of a driver's state is never poisoned here, since no code in it panics.
pub mod Simulator
pub mod Replay
pub mod ReadOnly
use Prim.Native.String.{String}
use bhtune.Common.{ℕ, Bool, true, false, List, Option, none, some}
use bhtune.Common.Text.{Text}
use bhtune.Common.Result.{Result, ok, err}
use bhtune.Runtime.Outcome.{Quality}

pub record TagValue : Type 0 where
  pub tag : Text
  pub value : Text
  pub quality : Quality
  pub timestamp : Option ℕ

pub data TagWrite (F : Type 0) : Type 0 where
  float : F → TagWrite F
  raw : Text → TagWrite F

pub record WriteOutcome : Type 0 where
  pub success : Bool
  pub error_message : Option Text

-- `WriteOutcome::success` and `WriteOutcome::failure`.
abbrev pub success : WriteOutcome
success = record { success = true; error_message = none }

abbrev pub failure : Text → WriteOutcome
failure message = record { success = false; error_message = some message }

-- `E` is an error of a library, and texts of messages are left out. The replay driver's error of an
-- exhausted trace is one of its own.
pub data DriverError (E : Type 0) : Type 0 where
  connect operation : E → DriverError E
  invalid_tag_value : Text → DriverError E
  unsupported incompatible_gateway : String → DriverError E
  index_operation_rejected browse_state_invalid : DriverError E
  trace_exhausted : ℕ → ℕ → DriverError E

-- The namespace calls of the interface.
pub data NamespaceCall : Type 0 where
  capabilities browse close_browse_session search search_index_status refresh_search_index :
      NamespaceCall
  control_search_index set_search_index_auto_refresh delete_search_index search_index :
      NamespaceCall

unfoldable pub operation_name : NamespaceCall → String
operation_name capabilities = "capabilities"
operation_name browse = "browse"
operation_name close_browse_session = "browse-session close"
operation_name search = "search"
operation_name search_index_status = "indexed-search status"
operation_name refresh_search_index = "indexed-search refresh"
operation_name control_search_index = "indexed-search control"
operation_name set_search_index_auto_refresh = "indexed-search auto-refresh"
operation_name delete_search_index = "indexed-search delete"
operation_name search_index = "indexed search"

pub record Driver (S F N E : Type 0) : Type 0 where
  pub read : List Text → S → Result (DriverError E) (List TagValue) × S
  pub write : Text → TagWrite F → S → Result (DriverError E) WriteOutcome × S
  pub namespace : NamespaceCall → S → Result (DriverError E) N × S

-- The answer of a driver that lacks a namespace call: the trait's default, and that of each driver here.
unfoldable pub not_supported : {S N E : Type 0} → NamespaceCall → S → Result (DriverError E) N × S
unfolding operation_name
not_supported call s = (err (unsupported (operation_name call)), s)
