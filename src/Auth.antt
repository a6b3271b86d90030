-- ===== src/Auth.antt =====
-- internal/modules/auth: the demo authenticator, the tokens, the login and the guard.
pub mod Service
pub mod Handler
