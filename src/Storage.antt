-- ===== src/Storage.antt =====
-- storage/base.py and storage/memory_storage.py: the paths of the stored objects, the in-memory
-- provider, and programs that call a provider.
pub mod Keys
pub mod Segments
pub mod Memory
pub mod Program
pub mod Disjoint
pub mod Trace
pub mod Exclusive
