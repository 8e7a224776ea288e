-- ===== src/Js.antt =====
-- The parts of JavaScript that the sources use as built in: texts as UTF-16 code units, numbers,
-- values of type `unknown`, plain objects as lists of fields, and the built-ins whose results the
-- sources only pass on.
mod Strings
mod Numbers
mod Values
pub mod Json
unfoldable pub use Strings.*
unfoldable pub use Numbers.*
unfoldable pub use Values.*
