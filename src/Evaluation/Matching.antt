-- ===== src/Evaluation/Matching.antt =====
-- The partial matches of quality_evaluation.py.
use caikit.Common.{String, Bool, ◌||◌, nat_eq}

module _ (part_of : String → String → Bool) where
  -- One of the two phrases is part of the other, as a whole.
  abbrev pub match_partly : String → String → Bool
  match_partly gold pred = part_of pred gold || part_of gold pred
