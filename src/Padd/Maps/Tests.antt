-- ===== src/Padd/Maps/Tests.antt =====
-- Examples of a game's mappings: the pad's south button is held while they are loaded.
use anyconsole.Base.{◌≡◌, refl, some, [], ◌∷◌}
use anyconsole.Padd.Sync.Synced.{IsSynced}
use anyconsole.Padd.Lifecycle.Synced.{IsCalm}
use anyconsole.Padd.Maps.{Config, load_maps, read_boot_hold}
use anyconsole.Padd.Maps.Loaded.{load_maps-IsSynced}
use anyconsole.Padd.Tests.{held, held-IsSynced, held-IsCalm}
use anyconsole.Padd.Tests.Fractions.{fractions, fractions-IsIeee}

-- South is the left stick to the right, and the space bar is held while the game starts.
abbrev game : Config
game = record {
  keys = ("b", some 57) ∷ [];
  pad_map = ("a", some "+leftx") ∷ ("+leftx", some "a") ∷ ("leftx", some "b") ∷ [];
  hold = some (some 57, 1500);
}

load_maps-IsSynced_example :
    IsSynced (load_maps (some game) held) × IsCalm (load_maps (some game) held).rules
load_maps-IsSynced_example =
    load_maps-IsSynced fractions-IsIeee (some game) held held-IsCalm held-IsSynced

load_maps-hold_test : (load_maps (some game) held).boot_hold ≡ (1, 500000000)
unfolding load_maps read_boot_hold
load_maps-hold_test = refl
