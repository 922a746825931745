-- ===== src/Decimal.antt =====
-- include/chronos/core/types.hpp: `Decimal`, the class `fpm::fixed<int64_t, __int128, 32>` of the
-- third-party library fpm, as a parameter with the laws that the program relies on.
mod Defs
mod Order
pub mod Sample
pub use Defs.*
pub use Order.*
