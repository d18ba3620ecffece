-- ===== src/Padd/Watches.antt =====
-- guest/padd.c: the table of what the main loop polls (watch, drop, unwatch, unwatch_pad). The first
-- entries are the fixed sources, and the code finds those by their index.
pub mod Drops
use anyconsole.Base.{
  ℕ, zero, suc, ◌+◌, ◌-◌, ◌*◌, Bool, true, false, ◌&&◌, ◌||◌, Option, none, some, List, [], ◌∷◌,
  ◌==◌, if◌then◌else◌,
}
use anyconsole.Base.Int.{ℤ, pos, ltb_ℤ}
use anyconsole.Padd.Codes.{pads_max}

-- enum source, from FIXED_SOURCES on.
abbrev pub fixed_sources : ℕ
fixed_sources = 11

abbrev pub captured_source : ℕ
captured_source = 11

abbrev pub virtual_pad_source : ℕ
virtual_pad_source = 12

abbrev pub physical_pad_source : ℕ
physical_pad_source = 13

abbrev pub microphone_source : ℕ
microphone_source = 14

abbrev pub tunnel_source : ℕ
tunnel_source = 15

-- FIXED_SOURCES + CAPTURED_MAX + WATCHES_PER_PAD * PHYSICAL_PADS_MAX + PADS
abbrev pub watched_max : ℕ
watched_max = 11 + 32 + 3 * 16 + pads_max

-- struct watch with its struct pollfd. `pending` is revents.
pub record Watch : Type 0 where
  pub fd : ℤ
  pub pending : ℕ
  pub source : ℕ
  pub input : Option ℕ
  pub pad : ℕ
  pub seat : ℕ

-- watched[] and watches[], watched_count, and the descriptors that have been closed.
pub record Watches : Type 0 where
  pub entry : ℕ → Watch
  pub count : ℕ
  pub closed : List ℤ

abbrev pub put_entry : ℕ → Watch → Watches → Watches
put_entry i w W = record W { entry = λ k. if i == k then w else W.entry k }

-- The index of the new entry, and `none` when the table is full.
unfoldable pub watch : ℤ → ℕ → Watches → Option ℕ × Watches
watch fd source W = if ltb_ℤ fd (pos 0) || W.count == watched_max then (none, W) else (
  some W.count,
  record (put_entry W.count
      (record { fd = fd; pending = 0; source = source; input = none; pad = 0; seat = 0 }) W) {
        count = W.count + 1;
      },
)

-- The last entry takes the place of the dropped one.
unfoldable pub drop : ℕ → Watches → Watches
drop i W =
    let last = W.count - 1 in
    record (put_entry i (record (W.entry last) { pending = 0 }) W) { count = last }

unfoldable pub unwatch : ℕ → Watches → Watches
unwatch i W = drop i (record W { closed = (W.entry i).fd ∷ W.closed })

abbrev pub is_watch_of : ℕ → ℕ → Watch → Bool
is_watch_of source pad w = w.source == source && w.pad == pad

-- The loop of unwatch_pad, which goes down: `n` entries from the fixed ones on are left to see.
unfoldable pub unwatch_down : ℕ → ℕ → ℕ → Watches → Watches
unwatch_down source pad zero W = W
unwatch_down source pad (suc n) W =
    let i = fixed_sources + n in
    unwatch_down source pad n (if is_watch_of source pad (W.entry i) then unwatch i W else W)

unfoldable pub unwatch_pad : ℕ → ℕ → Watches → Watches
unwatch_pad source pad W = unwatch_down source pad (W.count - fixed_sources) W
