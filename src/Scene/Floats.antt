-- ===== src/Scene/Floats.antt =====
-- The C `float` of guest/scene.c, and the library calls that it makes on it: the machine's, so a
-- parameter of the model. A `double` is one of these too: where one is turned into the other, `Float`
-- stands for both.
use anyconsole.Base.{Bool}
use anyconsole.Base.Int.{ℤ}

pub record Floats : Type 1 where
  pub Float : Type 0
  pub of_int : ℤ → Float
  pub add : Float → Float → Float
  pub sub : Float → Float → Float
  pub mul : Float → Float → Float
  pub div : Float → Float → Float
  pub fmin : Float → Float → Float
  pub sqrt : Float → Float
  pub fabs : Float → Float
  pub less : Float → Float → Bool
  pub same : Float → Float → Bool
  pub is_nan : Float → Bool
