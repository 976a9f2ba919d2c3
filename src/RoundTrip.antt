-- ===== src/RoundTrip.antt =====
-- The client's encoder (`StreamProto`) against the server's parser (`HttpIngest`): what the one sends, the
-- other reads back.
pub mod Hex
pub mod Chunk
pub mod Body
pub mod Session
