-- ===== src/Protocol.antt =====
-- include/mdbx_containers/sync/protocol: the types of ChangeOp.hpp, ChangeBatch.hpp, codec_flags.hpp,
-- CodecBounds.hpp and SyncCursor.hpp.
pub mod Batch
pub mod Encode
pub mod Decode
pub mod Operations
pub mod Layout
pub mod Checks
pub mod RoundTrip
pub mod Soundness
pub mod Prefixes
