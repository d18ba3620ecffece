-- ===== src/Compositor/Boxes/Tests.antt =====
-- Examples of boxes: a game of 320 by 240 on a television, and a square one.
use anyconsole.Base.{ℕ, ◌≡◌, ◌+◌, ◌*◌, ◌<◌, ◌≤◌, ◌⊎◌, refl, arith}
use anyconsole.Base.Int.{ℤ, pos}
use anyconsole.Compositor.Boxes.{
  Box, at_origin, centered, fit, place, area, tv_signal, widescreen_width,
}
use anyconsole.Compositor.Boxes.Inside.{
  IsInside, IsFitted, IsMultiple, fit-IsFitted, place-IsInside,
}

abbrev screen : Box
screen = at_origin 1920 1080

fit-IsFitted_example : IsFitted (fit screen 4 3) screen 4 3
fit-IsFitted_example = fit-IsFitted screen 4 3 (omega arith) (omega arith)

place-IsInside_example :
    IsInside (place screen 320 240) screen
    × (((320 * 2 ≤ screen.width)
          × (240 * 2 ≤ screen.height)
          × IsMultiple (place screen 320 240) screen 320 240)
        ⊎ (((screen.width < 320 * 2) ⊎ (screen.height < 240 * 2))
            × IsFitted (place screen 320 240) screen 320 240))
place-IsInside_example = place-IsInside screen 320 240 (omega arith) (omega arith)

area_test : area 1280 1024 ≡ record { x = pos 0; y = pos 152; width = 1280; height = 720 }
unfolding area fit centered anyconsole.Base.Int.◌+ℤ◌
area_test = refl

tv_signal_test : (tv_signal 1440 1080).width ≡ 960
unfolding tv_signal fit centered widescreen_width
tv_signal_test = refl
