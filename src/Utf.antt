-- ===== src/Utf.antt =====
-- utf8_utf16_transform: the transcoder between UTF-8, UTF-16LE and UTF-16BE.
pub mod Utf8
pub mod Utf16
pub mod Stream
pub mod Convert
