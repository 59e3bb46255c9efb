-- ===== src/WebSocket.antt =====
-- src/multiloop/_websocket.py.
pub mod Frame
pub mod Lengths
pub mod Masking
pub mod Reader
pub mod Session
