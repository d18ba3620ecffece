-- ===== src/Padd/Tests/Watches.antt =====
-- Tests and examples of the table of watches: two watches of pad 7 after the fixed ones.
use anyconsole.Base.{ℕ, ◌≡◌, refl, arith, none, [], ◌∷◌, ◌==◌, if◌then◌else◌}
use anyconsole.Base.Int.{pos}
use anyconsole.Padd.Watches.{
  Watch, Watches, physical_pad_source, microphone_source, drop, unwatch, unwatch_down, unwatch_pad,
}
use anyconsole.Padd.Watches.Drops.{IsCleared, IsKept, unwatch_pad-IsCleared, unwatch_pad-IsKept}

abbrev polled : ℕ → Watch
polled i = record {
  fd = pos i;
  pending = 0;
  source =
      if i == 12
      then microphone_source
      else if i == 13
      then physical_pad_source
      else if i == 11
      then physical_pad_source
      else i;
  input = none;
  pad = 7;
  seat = 0;
}

abbrev polling : Watches
polling = record { entry = polled; count = 14; closed = [] }

polling_after : (unwatch_pad physical_pad_source 7 polling).closed ≡ pos 11 ∷ pos 13 ∷ []
unfolding unwatch_pad unwatch_down unwatch drop
polling_after = refl

unwatch_pad-IsCleared_example :
    IsCleared physical_pad_source 7 0 (unwatch_pad physical_pad_source 7 polling)
unwatch_pad-IsCleared_example = unwatch_pad-IsCleared physical_pad_source 7 polling (omega arith)

unwatch_pad-IsKept_example :
    IsKept physical_pad_source 7 polling (unwatch_pad physical_pad_source 7 polling)
unwatch_pad-IsKept_example = unwatch_pad-IsKept physical_pad_source 7 polling (omega arith)
