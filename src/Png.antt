-- ===== src/Png.antt =====
-- PNG images: packages/core/src/png.ts. A buffer is the list of its bytes; `inflateSync` and
-- `deflateSync` are parameters.
pub mod Bytes
pub mod Chunk
pub mod Filter
pub mod Decode
pub mod Encode
pub mod RoundTrip
