-- ===== src/Channel.antt =====
-- yacl/link/transport/channel.h and channel.cc.
pub mod Key
pub mod Listeners
pub mod State
pub mod Receive
pub mod Send
pub mod Close
pub mod Retry
pub mod Chunks
