-- ===== src/Json.antt =====
-- The Python values that the program stores and sends: JSON values and mappings with text keys
-- (`Mapping[str, object]`), and the `dict` operations that the source applies to them. Python's
-- lists and tuples are one constructor, since both are written alike.
mod Values
pub mod Redact
unfoldable pub use Values.*
