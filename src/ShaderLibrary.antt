-- ===== src/ShaderLibrary.antt =====
-- src/shader_library.rs: the formats of shader libraries, and the grouping of shaders.
pub mod Records
pub mod Headers
pub mod Sequences
pub mod Groups
