-- ===== src/I18n.antt =====
-- web/src/lib/i18n.ts: the dictionaries, the current locale and the lookup of a message.
pub mod Told
pub mod Template
pub mod Ru
pub mod En
pub mod State
pub mod Parity
