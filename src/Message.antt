-- ===== src/Message.antt =====
-- rust-msg3-parser/src/msg3_parser.rs: the elements of a message, and the items of a forwarded one.
pub mod Element
pub mod Faces
pub mod Named
pub mod Json
pub mod Xml
pub mod Labels
pub mod Runs
pub mod Summary
pub mod Gaps
pub mod Embedded
pub mod Parse
pub mod Prefilter
pub mod Items
pub mod Expand
pub mod ExpandLimits
pub mod Escape
pub mod EscapeRead
pub mod Layout
pub mod RoundBounds
pub mod RoundLaws
pub mod Written
pub mod ReadBack
pub mod Crash
pub mod FilterElements
pub mod ItemsRound
pub mod ItemsStream
pub mod Scan
pub mod ScanFuel
mod Examples
mod ExpandExamples
pub mod Skips
pub mod SkipsLeadin
mod SkipsExamples
