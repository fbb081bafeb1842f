-- ===== src/TxData.antt =====
-- rust-msg3-parser/src/txdata_codec.rs: the TXData record codec.
pub mod Mask
pub mod Strings
pub mod Fields
pub mod Layout
pub mod Record
pub mod Complete
pub mod Names
pub mod Encode
mod Examples
