-- ===== src/Processor.antt =====
-- processor.go: the rules for plots and representations, and how they are accepted.
pub mod Limits
pub mod Target
pub mod Admission
pub mod CheckPlot
pub mod State
pub mod Tips
pub mod Median
pub mod Reorganize
pub mod Accept
pub mod Laws
pub mod Keeping
pub mod Run
pub mod Calls
pub mod OnDisk
pub mod Tipping
pub mod Ancestor
pub mod Threaded
