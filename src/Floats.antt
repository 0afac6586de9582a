-- ===== src/Floats.antt =====
-- Python's floats, as far as the program uses them: literals with one decimal, products, `round(x, 2)`
-- and `<=`. The arithmetic is that of the machine and is not modelled: it is a parameter, with the
-- laws that hold of the finite values that a score is made of (a CVSS score and five literals).
use kaaval.Base.{ℕ, String, ◌≤◌, ◌≡◌, Bool, true, false}

pub record Floats : Type 1 where
  pub Float : Type 0
  -- `str(x)`
  pub text : Float → String
  -- the literal n / 10
  pub tenths : ℕ → Float
  pub times : Float → Float → Float
  -- `round(x, 2)`
  pub round2 : Float → Float
  -- `x <= y`
  pub at_most : Float → Float → Bool

pub record IsOrdered (F : Floats) : Type 0 where
  pub refl_at_most : (x : F.Float) → F.at_most x x ≡ true
  pub total : (x y : F.Float) → F.at_most x y ≡ false → F.at_most y x ≡ true
  pub trans : (x y z : F.Float) → F.at_most x y ≡ true → F.at_most y z ≡ true → F.at_most x z ≡ true

pub record IsArithmetic (F : Floats) : Type 0 where
  pub ordered : IsOrdered F
  pub tenths_mono : (m n : ℕ) → m ≤ n → F.at_most (F.tenths m) (F.tenths n) ≡ true
  -- products of numbers that are not negative grow with their factors
  pub times_mono :
      (a b c d : F.Float)
      → F.at_most (F.tenths 0) a ≡ true
      → F.at_most a b ≡ true
      → F.at_most (F.tenths 0) c ≡ true
      → F.at_most c d ≡ true
      → F.at_most (F.times a c) (F.times b d) ≡ true
  pub times_pos :
      (a c : F.Float)
      → F.at_most (F.tenths 0) a ≡ true
      → F.at_most (F.tenths 0) c ≡ true
      → F.at_most (F.tenths 0) (F.times a c) ≡ true
  pub round2_mono :
      (x y : F.Float) → F.at_most x y ≡ true → F.at_most (F.round2 x) (F.round2 y) ≡ true
  pub round2-tenths : (n : ℕ) → F.round2 (F.tenths n) ≡ F.tenths n
