-- ===== src/Redream/States/Tests.antt =====
-- Examples of states with two saves behind them.
use anyconsole.Base.{ℕ, ◌≡◌, some, List, [], ◌∷◌, arith}
use anyconsole.Redream.States.{save_with_saves, restore_saves}
use anyconsole.Redream.States.Restored.{restore_saves-save_with_saves}

restore_saves-save_with_saves_example :
    (file : List ℕ) × (save_with_saves (some (7 ∷ [])) ((1 ∷ 2 ∷ []) ∷ [] ∷ []) ≡ some file)
    × (restore_saves file 2 ≡ some ((1 ∷ 2 ∷ []) ∷ [] ∷ []))
restore_saves-save_with_saves_example =
    restore_saves-save_with_saves (7 ∷ []) ((1 ∷ 2 ∷ []) ∷ [] ∷ []) (omega arith, (omega arith, tt))
