-- ===== src/Overlay/Windows/Games.antt =====
-- The window of a game is one of those of the map, and there is none only if the map has none.
use Prim.Native.String.{String}
use text.Mathlib.Text.{◌==◌ as str_eq}
use anyconsole.Base.{
  ℕ, zero, suc, ◌+◌, ◌≤◌, ◌<◌, ◌≡◌, sym, ◌∙◌, ap, subst, inl, inr, true, false, Option, none, some,
  List, ◌==◌, ==_iff, arith, Bool-cases,
}
use mathlib.Core.Option.{some-injective, some-ne-none}
use anyconsole.Overlay.Windows.{Window, Windows, Event, window_from, game_window}
use anyconsole.Overlay.Windows.Refined.{steps, map_steps, AllFresh, steps-Represents}
use anyconsole.Overlay.Windows.Registry.{Registry, Represents}

-- What a search among `n` windows from `i` on may find.
data Search (key : String) (window : ℕ → Window) (n i : ℕ) : Option ℕ → Type 0 where
  here :
      (k : ℕ)
      → i ≤ k
      → k < i + n
      → str_eq (window k).app_id key ≡ true
      → Search key window n i (some k)
  nowhere :
      ((k : ℕ) → i ≤ k → k < i + n → str_eq (window k).app_id key ≡ false)
      → Search key window n i none

further :
    (key : String) (window : ℕ → Window) (n i : ℕ) (found : Option ℕ)
    → str_eq (window i).app_id key ≡ false
    → Search key window n (suc i) found
    → Search key window (suc n) i found
further key window n i found other (Search.here k le lt e) =
    Search.here k (omega arith) (omega arith) e
further key window n i found other (Search.nowhere none_of) = Search.nowhere (λ k le lt.
    elim (Bool-cases (i == k)) [
      | inl e ↦ ap (λ j. str_eq (window j).app_id key) (sym ((==_iff i k).0 e)) ∙ other
      | inr e ↦ none_of k (ground arith) (omega arith)
    ])

window_from-Search :
    (key : String) (window : ℕ → Window) (n i : ℕ)
    → Search key window n i (window_from key window n i)
unfolding window_from
window_from-Search key window zero i = Search.nowhere (λ k le lt. absurd (omega arith))
window_from-Search key window (suc n) i = elim (Bool-cases (str_eq (window i).app_id key)) [
  | inl e ↦ rw e (Search.here i (omega arith) (omega arith) e)
  | inr e ↦ rw e (further key window n i _ e (window_from-Search key window n (suc i)))
]

-- What game_window says of a map that the table represents.
pub record IsWindowOf (key : String) (s : Windows) (r : Registry) (found : Option ℕ) : Type 0 where
  pub is_open :
      (k : ℕ)
      → found ≡ some k
      → (k < s.count)
        × (r.at (s.window k).handle ≡ some (s.window k))
        × (str_eq (s.window k).app_id key ≡ true)
  pub is_only : found ≡ none → (h : ℕ) (w : Window) → r.at h ≡ some w → str_eq w.app_id key ≡ false

Search-IsWindowOf :
    (key : String) (s : Windows) (r : Registry) (found : Option ℕ)
    → Represents s r
    → Search key s.window s.count 0 found
    → IsWindowOf key s r found
Search-IsWindowOf key s r found h (Search.here k le lt e) =
    let below : k < s.count = omega arith in
    let at : (j : ℕ) → some k ≡ some j → k ≡ j = λ j. some-injective k j in
    record {
      is_open = λ j f.
          subst
            (λ i.
              (i < s.count)
              × (r.at (s.window i).handle ≡ some (s.window i))
              × (str_eq (s.window i).app_id key ≡ true))
            (at j f) (below, h.listed k below, e);
      is_only = λ f. absurd (some-ne-none _ f);
    }
Search-IsWindowOf key s r found h (Search.nowhere none_of) = record {
  is_open = λ k f. absurd (some-ne-none _ (sym f));
  is_only = λ _ handle w e.
      let (i, lt, g, q) = h.only handle w e in
      sym (ap (λ (v : Window). str_eq v.app_id key) g) ∙ none_of i (omega arith) (omega arith);
}

game_window-IsWindowOf :
    (key : String) (s : Windows) (r : Registry)
    → Represents s r
    → IsWindowOf key s r (game_window key s)
unfolding game_window
game_window-IsWindowOf key s r h =
    Search-IsWindowOf key s r _ h (window_from-Search key s.window s.count 0)

-- After any sequence of the compositor's events, of which each new window has a handle that no other
-- window has at that time, the window that is found for a game is one that the map has under its handle
-- and with the game's key; and when none is found, no window of the map has that key.
pub game_window-steps :
    (key : String) (kept : String → String) (es : List Event) (s : Windows) (r : Registry)
    → AllFresh kept es r
    → Represents s r
    → IsWindowOf key (steps kept es s) (map_steps kept es r) (game_window key (steps kept es s))
game_window-steps key kept es s r fresh h =
    game_window-IsWindowOf key _ _ (steps-Represents kept es s r fresh h)
