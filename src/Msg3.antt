-- ===== src/Msg3.antt =====
-- rust-msg3-parser/src/msg3_parser.rs: the Msg3 message content parser.
pub mod Texts
pub mod Varint
pub mod Proto
pub mod Outcome
pub mod ProtoStrings
pub mod ProtoFields
pub mod ProtoSafe
pub mod ProtoPanic
pub mod Frames
pub mod FrameRead
pub mod FrameBounds
pub mod FrameLayout
pub mod FrameWrite
pub mod WideTexts
pub mod Records
pub mod RecordsSound
pub mod RecordsFuel
pub mod Elements
pub mod ElementFields
mod Examples
mod RecordExamples
