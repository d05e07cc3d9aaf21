-- ===== src/Lib.antt =====
-- us-blkback: a block backend for Xen guests, which serves read, write, flush, discard and
-- indirect requests of a frontend from a memory-mapped image file.
--
-- Parts. A frontend puts requests on a shared ring; `BlkCmdRingBuffer` (BlkBackend.cpp) handles
-- each one and answers it. To reach the frontend's pages it maps grants, which it keeps mapped in
-- a list with an index, the least recently used last; the bytes go to and from a `DiskImage`
-- (DiskImage.cpp), which is a file behind the interface `MemoryMappedFile`.
--
-- Files.
--   Base       the names, Boolean tests, options, lists and machine words that all parts share.
--   Limits     the constants and static assertions of BlkBackend.cpp, `minimum` and
--              `div_round_up` of BlkBackend.hpp. `Abi` holds the sizes of the Xen headers.
--   Disk       DiskImage.h and DiskImage.cpp. Disk/Region is a block of memory with memcpy and
--              memset; Disk/Image has the operations, `open_image` for the constructor and
--              `close_image` for the destructor, `read_sectors` for `readSectors` and so on;
--              Disk/Bounds and Disk/RoundTrip have the proofs; Disk/Backing has
--              `createBackingFile` and Disk/Util disk-image-util.cpp. Disk/Store is the store of
--              bytes that an image implements under any sequence of calls.
--              Disk/Mapped has the two classes of MemoryMappedFile.h over the calls of POSIX and of
--              Windows, and what is on the disk after the image was destroyed.
--   Grants     `GntPage` (BlkBackend.hpp), `mGntLru`, `mGntMap`, `mapGrant`, `addGrant`,
--              `evictGrants`, `freeGrants` (BlkBackend.cpp). A node of the list has a number,
--              which is what an iterator in the map holds. Grants/Spec is the abstract list.
--   Ring       `processSegment`, `handleReadWrite`, `handleIndirect`, `processRequest` and the
--              destructor of `BlkCmdRingBuffer`. Ring/Effects has the abstract store: the disk
--              and the granted pages as bytes, and what one segment does to them.
--              Ring/Shared has the loops over segments with each read of a shared page on its own,
--              and a guest that writes to its pages between two reads.
--   Frontend   `onBind` and `onClosing` of `BlkFrontendHandler`: `on_bind` reads the XenStore, opens
--              the image, writes its entries to the XenStore and creates the ring, which the handler
--              and libxenbe own together; each call of libxenbe may throw.
--              Frontend/Session follows a ring from the bind to its last owner, Frontend/Life a
--              frontend from its appearance.
--   Guest      the handlers of one guest, each with a ring, an image and an image file of its own, on
--              one machine: `step` is a call of one of them, which finds the machine as the last
--              call left it. Guest/Layers has what each has mapped as a layer over the others,
--              Guest/Run any sequence of calls.
--   Backend    `onNewFrontend` of `BlkBackend` and `frontendCount`.
--   Service    the functions of Service.cpp as the calls they make of Windows. Service/Calls reads
--              the open handles and the last report off the calls. Service/Threads is the same
--              program as `service_main`, the worker and the control handler interleaved: each is a
--              relation between what its next call finds and leaves, and a call that holds
--              service_mutex is one step.
--   Args       `copyArgs` and `freeArgs` of Args.hpp over a heap whose allocations may fail.
--   Program    `main`, `set_affinity` and `waitSignals` of BlkBackend.cpp, `parseArgs` and
--              `parseOrigArgs` of Args.hpp, `blkback_worker` and `log` of Service.cpp, as the calls
--              they make. Program/Protocol is the order in which the calls are allowed.
--   UnitTests  the unit tests of disk-image-test.cpp.
--   Tests      concrete machines and runs.
--
-- How state and errors are modelled. Each operation takes the state and returns the new one.
-- `none` is undefined behaviour or `std::terminate`: a copy that leaves its block, an iterator
-- that dangles, `back` of an empty list, a failing constructor. `BLKIF_RSP_ERROR` is a value. A
-- `uint64_t` wraps at 2 ^ 64 and a `uint32_t` at 2 ^ 32, written out at each operation.
--
-- Bounds and fuel. The loops over segments and pages are on the number of rounds that the code
-- computes. The loop of `evictGrants` has one unit of fuel for each grant in the list, which is
-- enough since a round removes one. The loop of `wait_on_blkback_thread` has fuel for 50
-- rounds: 200 ms each make the 10 s after which it gives up. `IsAbi` asks for the static
-- assertions and a page of at most 2 ^ 32 bytes.
--
-- Parameters. The hypervisor's grant table (`Gnttab`, laws `IsGnttab`), the mapped file
-- (`MappedFile`, laws `IsMappedFile`, an interface that Disk/Mapped fills), the calls of POSIX
-- (`Posix`, laws `IsPosix`) and of Windows (`Win32`, laws `IsWin32`) on a file, the layout of a
-- segment in a page (`segment_at`), the XenStore, the output stream (`OutStream`, laws
-- `IsOutStream`), the parser of cxxopts, CPU_SET, the dispatcher of services, and what the system
-- answers to each call (`os`) and whether it throws (`throws`).
--
-- Not modelled. A frontend that writes to a page while a `memcpy` is under way on it, or between
-- two rounds of the outer loop of `handleIndirect`; requests of two rings that are handled at the
-- same time, or rings of two guests on one machine; the ring and event channel of libxenbe; the
-- text of log messages; the framework of include/catch.hpp, of which a test uses that REQUIRE ends
-- it; exceptions that are no std::exception.
mod Base
pub mod Disk
pub mod Limits
pub mod Grants
pub mod Guest
pub mod Ring
pub mod Frontend
pub mod Backend
pub mod Service
pub mod Args
pub mod Program
pub mod UnitTests
mod Tests
