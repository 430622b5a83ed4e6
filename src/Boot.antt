-- ===== src/Boot.antt =====
-- The boot sequence, src/parthenope.c: the kernels that it starts, and `bootstrap`.
pub mod Trace
pub mod Cache
pub mod Image
pub mod Aros
pub mod Aos
pub mod Start
