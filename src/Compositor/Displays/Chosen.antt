-- ===== src/Compositor/Displays/Chosen.antt =====
-- What the choice of a display leads to: choose_display.
use Prim.Native.String.{String}
use anyconsole.Base.{
  subst, ℕ, ◌≡◌, refl, sym, ◌⊎◌, inl, inr, Bool, true, false, not, ◌&&◌, Option, none, some, ◌∷◌,
  ◌==◌, if_true, if_false, Bool-cases,
}
use anyconsole.Compositor.Displays.{Mode, Display, Call, Screens, best_of, games_running}
use anyconsole.Compositor.Displays.Order.{IsBest, best_of-IsBest}
use anyconsole.Compositor.Displays.Shown.{GoesOn, show_display-GoesOn}
use anyconsole.Compositor.Displays.Choice.{
  hand_over, pending_of, wanted_display, show_display, leave_gpu, choose_display,
}

-- The display is on a GPU that renders and is not the one that renders now.
abbrev pub needs_gpu : Screens → Display → Bool
needs_gpu s d = not (d.gpu == s.render_gpu) && (s.gpus d.gpu).renders

-- The display is handed over to a GPU that renders, and no game runs.
pub record IsHandedOver (s t : Screens) : Type 0 where
  pub no_game : games_running s.sandboxed ≡ false
  pub best : Display
  pub is_best : IsBest s s.displays (some best)
  pub needs : needs_gpu s best ≡ true
  pub is_pending : t.pending ≡ some best
  pub called : t.calls ≡ Call.write_gpu best.gpu ∷ s.calls
  pub stopping : t.stopping ≡ true
  pub same_active : t.active ≡ s.active

-- A game runs on, on the display that it has, where the best display needs another GPU.
pub record IsKept (s t : Screens) : Type 0 where
  pub game : games_running s.sandboxed ≡ true
  pub best : Display
  pub is_best : IsBest s s.displays (some best)
  pub needs : needs_gpu s best ≡ true
  pub is_pending : t.pending ≡ some best
  pub shown : Display
  pub was_active : s.active ≡ some shown
  pub goes_on : GoesOn s t (some shown)

-- Why the best display may show the picture: there is none, it needs no other GPU, or a game runs that
-- no display shows.
abbrev pub IsReady : Screens → Screens → Option Display → Type 0
IsReady s t none = t.pending ≡ none
IsReady s t (some best) =
    ((needs_gpu s best ≡ false) × (t.pending ≡ none))
    ⊎ ((needs_gpu s best ≡ true)
        × (games_running s.sandboxed ≡ true)
        × (s.active ≡ none)
        × (t.pending ≡ some best))

-- The best display shows the picture.
pub record IsShown (s t : Screens) : Type 0 where
  pub best : Option Display
  pub is_best : IsBest s s.displays best
  pub is_ready : IsReady s t best
  pub goes_on : GoesOn s t best

-- No display, or one that needs no other GPU.
abbrev IsHere : Screens → Option Display → Type 0
IsHere s none = Unit {0}
IsHere s (some d) = needs_gpu s d ≡ false

ready :
    (s t : Screens) (best : Option Display) → IsHere s best → t.pending ≡ none → IsReady s t best
ready s t none here e = e
ready s t (some d) here e = inl (here, e)

pending_of-cases :
    (s : Screens) (best : Option Display)
    → ((pending_of s best ≡ none) × IsHere s best)
      ⊎ ((d : Display) × (best ≡ some d) × (pending_of s best ≡ some d) × (needs_gpu s d ≡ true))
unfolding pending_of
pending_of-cases s none = inl (refl, tt)
pending_of-cases s (some d) = elim (Bool-cases (needs_gpu s d)) [
  | inl e ↦ inr (d, refl, if_true _ _ e, e)
  | inr e ↦ inl (if_false _ _ e, e)
]

module _ (print : Mode → String) (accepts : ℕ → Mode → Bool) where
  abbrev pub IsChosen : Screens → Screens → Type 0
  IsChosen s t = IsHandedOver s t ⊎ (IsKept s t ⊎ IsShown s t)

  -- `goes_on` is about the state that has what is pending.
  GoesOn-before :
      (s t : Screens) (p : Option Display) (wanted : Option Display)
      → GoesOn (record s { pending = p }) t wanted
      → GoesOn s t wanted
  GoesOn-before s t p wanted g = record {
    stopping = g.stopping;
    is_active = g.is_active;
    told = g.told;
    called = g.called;
    keeps_gpu = g.keeps_gpu;
    commits = g.commits;
  }

  -- A game runs, and the best display needs another GPU.
  game-IsChosen :
      (s : Screens) (d : Display) (active : Option Display)
      → s.active ≡ active
      → s.stopping ≡ false
      → games_running s.sandboxed ≡ true
      → IsBest s s.displays (some d)
      → needs_gpu s d ≡ true
      → IsChosen s (
          show_display print accepts
            (wanted_display (some d) active (some d))
            (record s { pending = some d }))
  unfolding wanted_display
  game-IsChosen s d none had off game is_best needs =
      let r = show_display-GoesOn print accepts (some d) (record s { pending = some d }) off in
      inr (
        inr (record {
          best = some d;
          is_best = is_best;
          is_ready = inr (needs, game, had, r.1);
          goes_on = GoesOn-before s _ (some d) (some d) r.0;
        }))
  game-IsChosen s d (some a) had off game is_best needs =
      let r = show_display-GoesOn print accepts (some a) (record s { pending = some d }) off in
      inr (
        inl (record {
          game = game;
          best = d;
          is_best = is_best;
          needs = needs;
          is_pending = r.1;
          shown = a;
          was_active = had;
          goes_on = GoesOn-before s _ (some d) (some a) r.0;
        }))

  leave_gpu-IsChosen :
      (s : Screens) (d : Display)
      → s.stopping ≡ false
      → IsBest s s.displays (some d)
      → needs_gpu s d ≡ true
      → IsChosen s (leave_gpu print accepts (some d) (some d) (record s { pending = some d }))
  unfolding leave_gpu hand_over
  leave_gpu-IsChosen s d off is_best needs = elim (Bool-cases (games_running s.sandboxed)) [
    | inl game ↦ rw game (game-IsChosen s d s.active refl off game is_best needs)
    | inr idle ↦ rw idle (
        inl (record {
          no_game = idle;
          best = d;
          is_best = is_best;
          needs = needs;
          is_pending = refl;
          called = refl;
          stopping = refl;
          same_active = refl;
        }))
  ]

  leave_none-IsChosen :
      (s : Screens) (best : Option Display)
      → s.stopping ≡ false
      → IsBest s s.displays best
      → IsHere s best
      → IsChosen s (leave_gpu print accepts none best (record s { pending = none }))
  unfolding leave_gpu wanted_display
  leave_none-IsChosen s best off is_best here =
      let r = show_display-GoesOn print accepts best (record s { pending = none }) off in
      inr (
        inr (record {
          best = best;
          is_best = is_best;
          is_ready =
              ready s (show_display print accepts best (record s { pending = none })) best here r.1;
          goes_on = GoesOn-before s _ none best r.0;
        }))

  -- Unless the compositor is stopping, choosing a display ends in one of three ways. Where the best
  -- display, one that no other beats, needs another GPU that renders, and no game runs, that GPU is
  -- written down for the next start, the compositor stops, and the active display is as it was. Where it
  -- needs one, a game runs, and a display was active, then that display still is, and no GPU is written
  -- down. Otherwise, if the best display needs no other GPU, or no display was active while a game runs,
  -- the best display is active, or none if there is none, and no GPU is written down. A display that
  -- comes to be active is enabled, and every other one disabled. What is pending
  -- is the best display if it needs another GPU, and none if not.
  pub choose_display-IsChosen :
      (s : Screens) → s.stopping ≡ false → IsChosen s (choose_display print accepts s)
  unfolding choose_display
  choose_display-IsChosen s off =
      subst (IsChosen s) (sym (if_false s _ off)) (elim (pending_of-cases s best) [
        | inl (e, here) ↦
            subst (at best) (sym e)
              (leave_none-IsChosen s best off (best_of-IsBest s s.displays) here)
        | inr (d, is_best, e, needs) ↦
            let first : IsBest s s.displays (some d) =
              subst (IsBest s s.displays) is_best (best_of-IsBest s s.displays) in
            subst (at best) (sym e)
              (subst (λ b. at b (some d)) (sym is_best) (leave_gpu-IsChosen s d off first needs))
      ])
    where
      best : Option Display
      best = best_of s s.displays none

      at : Option Display → Option Display → Type 0
      at b p = IsChosen s (leave_gpu print accepts p b (record s { pending = p }))
