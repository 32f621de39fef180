-- ===== src/Compact/Link.antt =====
-- Two nodes: what one makes of the frames that the other sends.
pub mod Find
pub mod Frames
pub mod Connection
