-- ===== src/Text.antt =====
-- The text of Python as the package uses it: a str is the list of its code points, and bytes are
-- decoded with `errors="replace"`.
pub mod Utf8
pub mod Strip
pub mod Search
pub mod Regex
pub mod Number
pub mod Literal
