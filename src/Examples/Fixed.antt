-- ===== src/Examples/Fixed.antt =====
-- Floats as natural numbers of hundredths, for the examples.
use native.Mathlib.Nat.{mul-le-mul}
use kaaval.Base.{ℕ, ◌*◌, ◌/◌, ◌≤◌, ◌≡◌, refl, true, leb, arith, some, none, [], ◌∷◌}
use kaaval.Floats.{Floats, IsOrdered, IsArithmetic}
use kaaval.Scoring.{Context}

abbrev pub fixed : Floats
fixed = record {
  Float = ℕ;
  text = λ x. "score";
  tenths = λ n. n * 10;
  times = λ x y. x * y / 100;
  round2 = λ x. x;
  at_most = leb;
}

pub leb_of_le : (m n : ℕ) → m ≤ n → leb m n ≡ true
leb_of_le m n h = ground arith

le_of_leb : (m n : ℕ) → leb m n ≡ true → m ≤ n
le_of_leb m n h = ground arith

div_mono : (m n : ℕ) → m ≤ n → m / 100 ≤ n / 100
div_mono m n h = omega arith

pub fixed-IsOrdered : IsOrdered fixed
fixed-IsOrdered = record {
  refl_at_most = λ x. ground arith;
  total = λ x y h. ground arith;
  trans = λ x y z h k. ground arith;
}

pub fixed-IsArithmetic : IsArithmetic fixed
fixed-IsArithmetic = record {
  ordered = fixed-IsOrdered;
  tenths_mono = λ m n h. leb_of_le (m * 10) (n * 10) (omega arith);
  times_mono = λ a b c d pa h pc k.
      leb_of_le (a * c / 100) (b * d / 100)
        (div_mono (a * c) (b * d) (mul-le-mul (le_of_leb a b h) (le_of_leb c d k)));
  times_pos = λ a c pa pc. leb_of_le 0 (a * c / 100) (omega arith);
  round2_mono = λ x y h. h;
  round2-tenths = λ n. refl;
}

abbrev pub production : Context
production = record {
  environment = some (some "production");
  data_classification = some (some "pii");
  compliance_scope = "PCI-DSS" ∷ [];
  exposure = none;
}

abbrev pub dev : Context
dev = record {
  environment = some (some "dev");
  data_classification = none;
  compliance_scope = [];
  exposure = none;
}
