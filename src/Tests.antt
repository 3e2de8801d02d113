-- ===== src/Tests.antt =====
-- The theorems at concrete inputs.
mod Codecs
mod Contents
mod Names
mod Containers
mod Directories
mod Stores
mod Packages
mod Graphs
mod Legacy
mod Shaders
mod Preload
