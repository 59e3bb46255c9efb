-- ===== src/Http11.antt =====
-- src/multiloop/_http11.py.
pub mod Response
pub mod Protocol
