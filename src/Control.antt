-- ===== src/Control.antt =====
-- src/ptlab/control.py: the line-based BLE-control client. Bytes are cut into lines in Lines, a
-- response line is parsed in Response, and the client object is in Client.
pub mod Lines
pub mod Response
pub mod Client
