-- ===== src/Mm.antt =====
-- The memory manager: mm/ and arch/x86/{pm,vm}.c.
pub mod Mem
pub mod Pm
pub mod Slab
pub mod Vm
