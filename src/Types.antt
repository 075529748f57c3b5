-- ===== src/Types.antt =====
-- The data of src/types.ts. Optional fields are `Option`; a number is a natural number.
mod Enums
mod Values
mod Wire
mod Stores
pub use Enums.*
pub use Values.*
pub use Wire.*
pub use Stores.*
