-- ===== src/Messages.antt =====
-- src/messages/: the wire formats of the protocol's messages.
pub mod Distribution
pub mod Retry
pub mod PreKeySignal
pub mod SenderKey
pub mod Signal
