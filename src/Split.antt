-- ===== src/Split.antt =====
-- split.c and include/split.h: frames on the link, slices of a message, and the sessions between.
pub mod Types
pub mod Frame
pub mod Bitmap
pub mod Slice
pub mod Queue
pub mod Recv
pub mod Send
pub mod UpperSend
pub mod Node
pub mod Link
