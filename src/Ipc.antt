-- ===== src/Ipc.antt =====
-- src/IPC, with the parts of src/common/IPCTool.hpp and src/common/PseudoToolFactory.hpp that decide
-- which process reads and which one writes.
mod Examples
pub mod ProcInfo
pub mod Roles
pub mod Observer
pub mod Memory
