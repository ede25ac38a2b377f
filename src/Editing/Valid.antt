-- ===== src/Editing/Valid.antt =====
-- The invariant of one buffer, and what keeps it: a command that leaves the text alone, one that
-- patches it, and a delivery that appends to it.
mod Still
mod Patch
pub use Still.*
pub use Patch.*
