-- ===== src/Shell.antt =====
-- cs537/P3: the shell `wsh`.
pub mod Words
pub mod History
pub mod Variables
pub mod Execute
pub mod Processes
pub mod Loop
