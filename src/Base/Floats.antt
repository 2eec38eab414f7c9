-- ===== src/Base/Floats.antt =====
-- JavaScript numbers that are fractions, as far as the program computes with them. The program
-- adds and clamps them, so nothing of IEEE rounding is assumed.
use tapes_monorepo.Base.Tests.{if◌then◌else◌}
use Prim.Native.Nat.{ℕ}
use mathlib.Core.Bool.{Bool}

pub record Float : Type 1 where
  pub Num : Type 0
  pub zero_num : Num
  pub plus : Num → Num → Num
  -- `Math.min(1, Math.max(0, x))`
  pub clamp_unit : Num → Num
  -- `x / n`
  pub over : Num → ℕ → Num
  -- `Number.isFinite(x)`
  pub is_finite : Num → Bool

-- `Number.isFinite(x) ? Math.min(1, Math.max(0, x)) : 0`
abbrev pub clamp_finite : (f : Float) → f.Num → f.Num
clamp_finite f x = if f.is_finite x then f.clamp_unit x else f.zero_num
