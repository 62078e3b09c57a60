-- ===== src/Go.antt =====
-- The parts of Go's standard library that the program's logic rests on: `strings`, `unicode` and
-- `net/http.Header`. A Go string is read as its sequence of code points, so it is valid UTF-8.
pub mod Order
pub mod Searching
pub mod Sorting
pub mod Text
pub mod Affixes
pub mod Splitting
pub mod Header
