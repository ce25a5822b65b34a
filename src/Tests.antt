-- ===== src/Tests.antt =====
-- Concrete runs of the browser side, on a small workspace.
pub mod Data
pub mod Client
pub mod Workspace
pub mod Workbench
pub mod Pages
pub mod Board
pub mod Marks
pub mod Views
