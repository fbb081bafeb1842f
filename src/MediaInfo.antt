-- ===== src/MediaInfo.antt =====
-- rust-msg3-parser/src/media_info.rs: the readers of media headers.
pub mod Bytes
pub mod Mp3
pub mod Vbr
pub mod Probe
pub mod FrameRuns
pub mod Recognised
pub mod FrameBounds
mod Examples
pub mod Boxes
pub mod BoxRead
pub mod BoxWalk
pub mod Ebml
pub mod EbmlRead
