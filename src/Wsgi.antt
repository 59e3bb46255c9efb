-- ===== src/Wsgi.antt =====
-- src/multiloop/wsgi.py, the WSGI worker: the request's body, its chunked coding, and the response.
pub mod Bytes
pub mod Stream
pub mod Network
pub mod Feed
pub mod Hex
pub mod Chunked
pub mod Response
pub mod Environ
mod Examples
