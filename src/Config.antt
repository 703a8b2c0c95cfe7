-- ===== src/Config.antt =====
-- backend/src/application/environment: the sources of the settings. The parser of YAML, the process
-- environment and the sources of pydantic are arguments.
pub mod Result
pub mod Table
pub mod Placeholders
pub mod Layer
pub mod Sources
