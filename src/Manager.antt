-- ===== src/Manager.antt =====
-- The program of the controller: its flags (pkg/config), and how it is started (cmd/manager/main.go).
pub mod Settings
pub mod Start
pub mod Adding
mod Tests
