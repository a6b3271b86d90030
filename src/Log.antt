-- ===== src/Log.antt =====
-- The entries that the program hands to `log/slog`.
use go_fiber_starter.Prelude.{ℕ, String, List}
use go_fiber_starter.Prelude.Int.{ℤ}

pub data Level : Type 0 where
  debug info warn error : Level

pub data Value : Type 0 where
  text : String → Value
  number : ℕ → Value
  integer : ℤ → Value
  -- a number of thousandths
  thousandths : ℕ → Value

pub record Entry : Type 0 where
  pub level : Level
  pub message : String
  pub attrs : List (String × Value)
