-- ===== src/Tests.antt =====
-- Concrete pages over which the assumptions on jQuery hold, and the theorems at concrete inputs.
mod Memory
mod Forest
mod NavList
mod Panel
mod PanelRuns
mod Retention
mod TextFields
mod Password
mod Moves
mod Storage
mod Backup
mod Locking
mod Cleanup
