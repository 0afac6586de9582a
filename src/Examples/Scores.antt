-- ===== src/Examples/Scores.antt =====
-- The laws of the score, with floats of two decimals.
use kaaval.Base.{◌≡◌, none, true}
use kaaval.Scoring.{max_contextual_score, compute_contextual_score}
use kaaval.Scoring.Laws.{compute_contextual_score_bounds}
use kaaval.Examples.Fixed.{fixed, fixed-IsArithmetic, production}
open fixed use {tenths, times, round2, at_most}

compute_contextual_score_bounds_example :
    (at_most (round2 (tenths 0)) (compute_contextual_score fixed none "HIGH" production).0 ≡ true)
    × (at_most
          (compute_contextual_score fixed none "HIGH" production).0
          (round2 (max_contextual_score fixed))
        ≡ true)
compute_contextual_score_bounds_example =
    compute_contextual_score_bounds fixed fixed-IsArithmetic "HIGH" production
