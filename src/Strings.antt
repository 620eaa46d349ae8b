-- ===== src/Strings.antt =====
-- The functions of Go's packages strings and unicode/utf8 that the repository's text handling calls
-- (internal/respconv, internal/models), on byte strings.
pub mod Prefix
pub mod Suffix
pub mod Index
pub mod Utf8
