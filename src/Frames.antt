-- ===== src/Frames.antt =====
-- kernel/src/frames.rs, the physical frame allocator.
pub mod Bitmap
pub mod Count
pub mod Allocator
