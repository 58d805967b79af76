-- ===== src/Cipher.antt =====
-- The ciphers of shell_parser: the check of their command line, and the Polybius cipher.
pub mod Args
pub mod Polybius
