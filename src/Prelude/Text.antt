-- ===== src/Prelude/Text.antt =====
-- What the program takes from Python's `str`: its tables of characters and its search are not in
-- the repository, so they are a parameter.
use Prim.Native.Nat.{ℕ}
use Prim.Native.String.{String}
use mathlib.Core.Bool.{Bool}

pub record TextOps : Type 0 where
  pub strip : String → String
  pub lower : String → String
  pub size : String → ℕ
  -- `part in text`
  pub contains : String → String → Bool
