-- ===== src/Model.antt =====
-- The state that the services share: the PostgreSQL tables of prisma/schema.prisma as lists of rows,
-- and the ways a service call runs against them.
mod Enums
mod Rows
mod Exceptions
mod Transaction
mod Writes
pub mod Stable
pub use Enums.*
pub use Rows.*
unfoldable pub use Exceptions.*
pub use Transaction.*
unfoldable pub use Writes.*
