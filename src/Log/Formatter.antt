-- ===== src/Log/Formatter.antt =====
-- LogFormatter (components/log.h, components/log.cpp): a pattern is compiled into format items,
-- which write an event to a stream. A position in m_pattern is held as the text from there on.
mod Items
mod Pattern
mod Tokens
pub mod RoundTrip
pub mod Rendering
unfoldable pub use Items.*
unfoldable pub use Pattern.*
