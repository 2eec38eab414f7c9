-- ===== src/Tests/Numbers.antt =====
-- Fractions as hundredths, for runs of the event modules.
use tapes_monorepo.Base.{ℕ, ◌+◌, ◌/◌, min, true, text_eq, nat_eq, Float}

abbrev pub hundredths : Float
hundredths = record {
  Num = ℕ;
  zero_num = 0;
  plus = λ a b. a + b;
  clamp_unit = λ x. min 100 x;
  over = λ a n. a / n;
  is_finite = λ x. true;
}
