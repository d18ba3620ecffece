-- ===== src/Compositor/Displays/Tests.antt =====
-- Examples of displays: a television on a fast GPU, and a panel on the one that renders.
use Prim.Native.String.{String}
use anyconsole.Base.{
  ℕ, zero, suc, ◌≡◌, ◌≤◌, refl, ◌⊎◌, Bool, true, false, Option, none, some, List, [], ◌∷◌, ◌==◌,
  if◌then◌else◌,
}
use anyconsole.Base.Int.{ℤ, pos}
use anyconsole.Compositor.Displays.{
  Gpu, Mode, Display, Screens, off_by, wanted_mode, display_mode, first_gpu, startup_order, chosen,
}
use anyconsole.Compositor.Displays.Modes.{SameSize, display_mode-IsNearest}
use anyconsole.Compositor.Displays.Choice.{choose_display}
use anyconsole.Compositor.Displays.Chosen.{IsChosen, choose_display-IsChosen}

abbrev mode : ℕ → ℕ → Mode
mode id refresh = record { id = id; width = 1920; height = 1080; refresh = refresh }

abbrev panel : Display
panel = record {
  id = 1;
  label = "panel";
  gpu = 0;
  connected = 0;
  preferred = mode 10 60000;
  modes = mode 10 60000 ∷ mode 11 50000 ∷ [];
}

abbrev television : Display
television = record {
  id = 2;
  label = "television";
  gpu = 1;
  connected = 1;
  preferred = mode 20 60000;
  modes = mode 20 60000 ∷ [];
}

abbrev gpus : ℕ → Gpu
gpus zero = record { rank = pos 2; has_display = true; renders = true }
gpus (suc i) = record { rank = pos 3; has_display = false; renders = true }

-- A game runs.
abbrev playing : Screens
playing = record {
  gpus = gpus;
  render_gpu = 0;
  displays = television ∷ panel ∷ [];
  sandboxed = true ∷ [];
  pinned = "";
  chosen_mode = "";
  shown_refresh = 50000;
  connections = 1;
  started = true;
  stopping = false;
  active = some panel;
  pending = none;
  applied_mode = some 10;
  calls = [];
}

abbrev print : Mode → String
print m = if m.refresh == 60000 then "1920x1080@60000" else "1920x1080@50000"

choose_display-IsChosen_example :
    IsChosen print (λ _ _. true) playing (choose_display print (λ _ _. true) playing)
choose_display-IsChosen_example = choose_display-IsChosen print (λ _ _. true) playing refl

display_mode-IsNearest_example :
    SameSize (wanted_mode print playing panel).0 (display_mode print playing panel)
    × (off_by (wanted_mode print playing panel).1 (display_mode print playing panel)
        ≤ off_by (wanted_mode print playing panel).1 (mode 11 50000))
unfolding wanted_mode chosen
display_mode-IsNearest_example =
    display_mode-IsNearest print playing panel 1 (mode 11 50000) refl
      (record { same_width = refl; same_height = refl })

first_gpu_test : first_gpu gpus (λ _. false) 2 ≡ 0
unfolding first_gpu startup_order anyconsole.Base.Loop.for_below anyconsole.Base.Int.◌-ℤ◌
first_gpu_test = refl
