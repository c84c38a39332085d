-- ===== src/Machine.antt =====
-- The machine that libs_src/vcmalloc.h runs on: the services of Windows and of the C runtime that
-- it calls (`Os`), commands that may throw or fault (`Run`), and memory behind page tables
-- (`Memory`).
pub mod Os
pub mod Run
pub mod Memory
pub mod Returns
pub mod Mmu
pub mod Copy
pub mod Remap
pub mod Frames
pub mod Content
pub mod Adding
