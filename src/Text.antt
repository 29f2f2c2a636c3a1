-- ===== src/Text.antt =====
-- The string functions of src/ac-core/ac_pool.c. A string is the list of its bytes before the
-- terminator. The copies that the functions cut up in place are values here: every write goes to
-- a byte that has been read before, so what is still to be read is as it was.
pub mod Split
pub mod Csv
