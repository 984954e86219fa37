-- ===== src/Wmap.antt =====
-- cs537/P4/xv6-public: the memory mappings of a process, in wmap.c, sysfile.c, trap.c and proc.c.
pub mod Vma
pub mod Place
pub mod Pages
pub mod Remap
pub mod Fault
pub mod Fork
pub mod Listing
pub mod Calls
pub mod Order
pub mod Remove
pub mod Fixed
pub mod Gap
pub mod Unmap
pub mod Exit
pub mod RoundTrip
mod Tests
