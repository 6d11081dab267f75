-- ===== src/Stdlib.antt =====
-- What the program uses of Python's standard library: UTF-8, `str` methods and `urllib.parse`.
pub mod Utf8
pub mod Query
pub mod Case
pub mod Decimal
mod Tests
