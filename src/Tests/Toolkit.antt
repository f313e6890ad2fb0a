-- ===== src/Tests/Toolkit.antt =====
-- Examples for caikit/core/toolkit.
use caikit.Common.{codes, false, ◌≡◌, refl}
use caikit.Common.Split.{split}
use caikit.Toolkit.Names.{
  is_snake, is_upper, is_lower, snake_to_upper_camel, camel_to_snake_case, snake-camel-snake, upper,
}

snake-camel-snake_example :
    camel_to_snake_case (snake_to_upper_camel (codes "run_model2_job")) false
    ≡ codes "run_model2_job"
unfolding is_snake is_upper is_lower
snake-camel-snake_example = snake-camel-snake (codes "run_model2_job") refl

upper_camel_runs : snake_to_upper_camel (codes "run_model2_job") ≡ codes "RunModel2Job"
unfolding snake_to_upper_camel split upper is_lower
upper_camel_runs = refl
