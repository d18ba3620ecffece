-- ===== src/Padd/Tests/Inputs.antt =====
-- Tests and examples of what pads, keyboards and mice send.
use anyconsole.Base.{◌≡◌, refl, some}
use anyconsole.Base.Int.{pos, negsuc, ◌+ℤ◌, ◌*ℤ◌}
use anyconsole.Padd.Sync.Synced.{IsSynced}
use anyconsole.Padd.Menu.{tilted, div_32, pad_input}
use anyconsole.Padd.Menu.Inputs.{pad_input-IsSynced}
use anyconsole.Padd.Tests.{idle, idle-IsSynced}
use anyconsole.Padd.Tests.Fractions.{fractions}

pad_input-IsSynced_example : IsSynced (pad_input 0 (some 0) (pos 1) idle)
pad_input-IsSynced_example = pad_input-IsSynced 0 (some 0) (pos 1) idle refl idle-IsSynced

tilted_far : tilted (pos 1000) ≡ pos 255
unfolding tilted div_32 ◌+ℤ◌ ◌*ℤ◌
tilted_far = refl

tilted_back : tilted (negsuc 7) ≡ pos 97
unfolding tilted div_32 ◌+ℤ◌ ◌*ℤ◌
tilted_back = refl
