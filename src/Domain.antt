-- ===== src/Domain.antt =====
-- domain/models.py: the dataclasses and the enumerations. A `datetime` is an instant in
-- microseconds of UTC, and a `timedelta` is a number of them.
mod Enums
mod Market
mod Trading
pub mod Intraday
pub use Enums.*
pub use Market.*
pub use Trading.*
