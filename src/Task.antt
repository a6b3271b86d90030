-- ===== src/Task.antt =====
-- internal/modules/task: the tasks of the API, layer by layer.
pub mod Model
pub mod Dto
pub mod Gorm
pub mod Repository
pub mod Service
pub mod Handler
pub mod Memory
pub mod Routes
