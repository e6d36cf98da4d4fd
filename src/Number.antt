-- ===== src/Number.antt =====
-- Python's numbers: `float` as an interface (Defs), the laws of its order (Order), `int` with a sign
-- (Int), and a type of numbers that meets the laws (Sample).
mod Defs
mod Int
mod Order
pub mod Monotone
mod Sample
pub use Defs.*
pub use Int.*
pub use Order.*
pub use Sample.{Cents, cents_double, Cents-IsOrdered, Cents-IsMonotone}
