-- ===== src/Gatt.antt =====
-- src/ptlab/gatt.py: the framed GATT client. Frames are parsed in Frame, names and identifiers are
-- resolved in Names, and the client object with its socket is in Client.
pub mod Frame
pub mod Names
pub mod Client
