-- ===== src/Uidgid.antt =====
-- The package uidgid/: which user and group ids a volume's files have inside and outside of the user
-- namespace that an unprivileged volume is used from.
pub mod Mapper
pub mod MaxValid
pub mod Translator
pub mod Walk
pub mod Owners
pub mod Privilege
