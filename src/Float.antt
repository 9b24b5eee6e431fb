-- ===== src/Float.antt =====
-- The `float` of the program, as an interface: `Floats` are the operations that the code applies to
-- a Python `float`, and `IsExact` the laws of exact arithmetic, for what holds up to rounding.
-- NaN and the infinities are not among the numbers, and the two zeros are one.
mod Defs
mod Ops
pub mod Exact
pub mod Algebra
pub mod Order
pub mod Division
pub mod Sums
pub use Defs.{Floats}
unfoldable pub use Ops.{le, truthy, abs, min, max, sum, of_int, tiny}
pub use Exact.{IsExact}
