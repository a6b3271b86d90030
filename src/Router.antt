-- ===== src/Router.antt =====
-- internal/router/router.go: the error handler and the chain of middlewares.
pub mod ErrorHandler
pub mod Observed
pub mod Chain
pub mod Life
pub mod Settings
