-- ===== src/Remote.antt =====
-- p36_remote.c: the client of a remote server. A C string is the list of the bytes before its NUL, so a
-- test of `*p` for NUL is a test for the empty list. `realloc` succeeds.
pub mod Utf8
pub mod Quote
pub mod Json
pub mod Chunked
pub mod Chat
pub mod Request
mod Tests
