-- ===== src/Overlay/Notices/Tests.antt =====
-- Examples of notifications: one is shown at second 10, another at second 12.
use anyconsole.Base.{◌≡◌, refl, arith, none, [], false}
use anyconsole.Overlay.Notices.{Screen, notify, expire, first_expiry}
use anyconsole.Overlay.Notices.Order.{IsShown, unexpired, notify-IsShown, expire-unexpired}

abbrev blank : Screen
blank = record { notices = []; timer = none; listeners = []; is_changed = false }

blank-IsShown : IsShown 10 blank
blank-IsShown = record { few = omega arith; ordered = tt; recent = tt; timed = refl }

abbrev two_shown : Screen
two_shown = notify 12 "Paired" (notify 10 "Pairing" blank)

notify-IsShown_example : IsShown 10 (notify 10 "Pairing" blank)
notify-IsShown_example = notify-IsShown 10 10 "Pairing" blank (omega arith) blank-IsShown

two_shown-IsShown : IsShown 12 two_shown
two_shown-IsShown =
    notify-IsShown 10 12 "Paired" (notify 10 "Pairing" blank) (omega arith)
      (notify-IsShown 10 10 "Pairing" blank (omega arith) blank-IsShown)

expire-unexpired_example :
    ((expire 15 two_shown).notices ≡ unexpired 15 two_shown.notices)
    × ((expire 15 two_shown).timer ≡ first_expiry (unexpired 15 two_shown.notices))
expire-unexpired_example = expire-unexpired 12 15 two_shown two_shown-IsShown
