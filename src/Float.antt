-- ===== src/Float.antt =====
-- Rust's `f32` and `f64`, which are not code of this repository. A record gives the operations on
-- them that the crate calls, and nothing is assumed of these: a theorem that needs a fact of
-- IEEE 754 names it as a hypothesis. `fixed` is a model of the record, in thousandths.
mod Ops
mod Fixed
pub use Ops.{Floats, Decimals, SelfDiffSmall}
unfoldable pub use Fixed.{fixed, milli}
