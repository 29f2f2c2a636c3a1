-- ===== src/Json.antt =====
-- src/ac-json/ac_json.c and include/another-c-library/ac-json/ac_json.h: the escapes of strings,
-- values, and how they are printed and parsed.
pub mod Utf8
pub mod Escape
pub mod Value
pub mod Print
pub mod Text
pub mod Parse
pub mod Whole
pub mod Access
pub mod Numbers
