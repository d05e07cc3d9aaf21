-- ===== src/Disk.antt =====
-- DiskImage.h, DiskImage.cpp and the interface of MemoryMappedFile.h.
pub mod Region
pub mod Image
pub mod Bounds
pub mod RoundTrip
pub mod Backing
pub mod Mapped
pub mod Store
pub mod Util
