-- ===== src/Standard.antt =====
-- What the source uses of the C++ standard library: vectors with indices and the heap algorithms
-- of <algorithm>.
pub mod Vector
pub mod Heap
pub mod Map
