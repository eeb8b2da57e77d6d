-- ===== src/Log.antt =====
-- components/log.h and components/log.cpp: levels, events, formatters, appenders, loggers.
pub mod Level
pub mod Stream
pub mod Formatter
pub mod World
pub mod File
pub mod Logger
pub mod Define
pub mod Yaml
pub mod Samples
mod Tests
mod ConfigTests
mod ManagerTests
