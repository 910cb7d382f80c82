-- ===== src/Dep.antt =====
-- src/dep/: recognising the paths of dependencies in backtraces and logs.
pub mod StdPath
pub mod Toolchain
pub mod RustRepo
pub mod RustStd
pub mod Rustc
pub mod Cratesio
pub mod Recognise
pub mod Lossless
pub mod ShortPath
