-- ===== src/Pyndn.antt =====
-- csrc/pyndn.h and csrc/pyndn.c: what the module sets up: the Python classes that it looks up, and its
-- exceptions.
pub mod Types
pub mod Classes
pub mod Exceptions
pub mod Upcalls
mod Runs
