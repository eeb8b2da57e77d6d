-- ===== src/Config.antt =====
-- components/config.h and components/config.cpp: configuration variables, their registry, and the
-- loading of a YAML document.
pub mod Member
pub mod Variable
pub mod Registry
pub mod Cast
pub mod Yaml
mod Tests
mod CastTests
