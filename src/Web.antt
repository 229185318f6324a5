-- ===== src/Web.antt =====
-- The browser tool, p36_web.c: the framing of its websocket, and the encodings of what it sends.
pub mod Frame
pub mod Encode
mod Tests
