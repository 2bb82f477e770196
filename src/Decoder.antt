-- ===== src/Decoder.antt =====
-- The packages decoder/tool (decoder/tool/B_I.go, decoder/tool/bitsReader.go) and decoder/mp4.
pub mod BitsReader
pub mod Integers
pub mod Mp4
