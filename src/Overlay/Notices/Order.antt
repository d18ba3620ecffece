-- ===== src/Overlay/Notices/Order.antt =====
-- Notifications stand in the order in which they expire, so that dropping from the front drops exactly
-- the expired ones.
use Prim.Native.String.{String}
use anyconsole.Base.{
  ℕ, ◌+◌, ◌≤◌, ◌<◌, ◌≡◌, refl, sym, ap, arith, ◌==◌, leb, if◌then◌else◌, Bool-cases, inl, inr, List,
  [], ◌∷◌, ◌++◌, length, length-append, All,
}
use anyconsole.Overlay.Notices.{
  Notice, Screen, notifications_max, notification_seconds, first_expiry, without_first, notify,
  drop_expired, expire,
}

-- Each expires no earlier than `from`, and than the one before it.
abbrev pub IsOrdered : ℕ → List Notice → Type 0
IsOrdered from [] = Unit
IsOrdered from (n ∷ ns) = (from ≤ n.expires) × IsOrdered n.expires ns

-- At most 4 notifications, in order, none of which expires later than one shown now would, and a timer
-- for the first.
pub record IsShown (now : ℕ) (s : Screen) : Type 0 where
  pub few : length s.notices ≤ notifications_max
  pub ordered : IsOrdered 0 s.notices
  pub recent : All (λ n. n.expires ≤ now + notification_seconds) s.notices
  pub timed : s.timer ≡ first_expiry s.notices

IsOrdered-weaken : (a b : ℕ) (ns : List Notice) → a ≤ b → IsOrdered b ns → IsOrdered a ns
IsOrdered-weaken a b [] le h = tt
IsOrdered-weaken a b (n ∷ ns) le (at, rest) = (omega arith, rest)

IsOrdered-append :
    (from last : ℕ) (ns : List Notice) (text : String)
    → from ≤ last
    → IsOrdered from ns
    → All (λ n. n.expires ≤ last) ns
    → IsOrdered from (ns ++ (record { text = text; expires = last } ∷ []))
IsOrdered-append from last [] text le h all = (le, tt)
IsOrdered-append from last (n ∷ ns) text le (at, rest) (under, all) =
    (at, IsOrdered-append n.expires last ns text under rest all)

All-append :
    (last : ℕ) (ns : List Notice) (text : String)
    → All (λ n. n.expires ≤ last) ns
    → All (λ n. n.expires ≤ last) (ns ++ (record { text = text; expires = last } ∷ []))
All-append last [] text all = (omega arith, tt)
All-append last (n ∷ ns) text (under, all) = (under, All-append last ns text all)

All-later :
    (a b : ℕ) (ns : List Notice) → a ≤ b → All (λ n. n.expires ≤ a) ns → All (λ n. n.expires ≤ b) ns
All-later a b [] le all = tt
All-later a b (n ∷ ns) le (under, all) = (omega arith, All-later a b ns le all)

abbrev room : List Notice → List Notice
room ns = if length ns == notifications_max then without_first ns else ns

room-few : (ns : List Notice) → length ns ≤ notifications_max → length (room ns) < notifications_max
room-few [] le = omega arith
room-few (n ∷ ns) le = elim (Bool-cases (length (n ∷ ns) == notifications_max)) [
  | inl full ↦ rw full (ground arith)
  | inr free ↦ rw free (ground arith)
]

room-IsOrdered : (ns : List Notice) → IsOrdered 0 ns → IsOrdered 0 (room ns)
room-IsOrdered [] h = tt
room-IsOrdered (n ∷ ns) (at, rest) = elim (Bool-cases (length (n ∷ ns) == notifications_max)) [
  | inl full ↦ rw full (IsOrdered-weaken 0 n.expires ns (omega arith) rest)
  | inr free ↦ rw free (at, rest)
]

room-All :
    (last : ℕ) (ns : List Notice)
    → All (λ n. n.expires ≤ last) ns
    → All (λ n. n.expires ≤ last) (room ns)
room-All last [] all = tt
room-All last (n ∷ ns) (under, all) = elim (Bool-cases (length (n ∷ ns) == notifications_max)) [
  | inl full ↦ rw full all
  | inr free ↦ rw free (under, all)
]

-- Showing a notification, at a time no earlier than the last one, keeps the table in its 4 cells and in
-- the order of expiry, and sets the timer to the first, however full it was.
pub notify-IsShown :
    (before now : ℕ) (text : String) (s : Screen)
    → before ≤ now
    → IsShown before s
    → IsShown now (notify now text s)
unfolding notify
notify-IsShown before now text s le h =
    let last = now + notification_seconds in
    let all =
      room-All last s.notices
        (All-later (before + notification_seconds) last s.notices (omega arith) h.recent) in
    record {
      few = omega (
        arith,
        length-append (room s.notices) (record { text = text; expires = last } ∷ []),
        room-few s.notices h.few,
      );
      ordered =
          IsOrdered-append 0 last (room s.notices) text (omega arith)
            (room-IsOrdered s.notices h.ordered) all;
      recent = All-append last (room s.notices) text all;
      timed = refl;
    }

-- The notifications that have not expired.
pub unexpired : ℕ → List Notice → List Notice
unexpired now [] = []
unexpired now (n ∷ ns) = let rest = unexpired now ns in if leb n.expires now then rest else n ∷ rest

unexpired-later :
    (now from : ℕ) (ns : List Notice) → now < from → IsOrdered from ns → unexpired now ns ≡ ns
unfolding unexpired
unexpired-later now from [] lt h = refl
unexpired-later now from (n ∷ ns) lt (at, rest) =
    ground (arith, unexpired-later now n.expires ns (omega arith) rest)

-- In order, dropping from the front drops every notification that has expired, and no other.
drop_expired-unexpired :
    (now from : ℕ) (ns : List Notice) → IsOrdered from ns → drop_expired now ns ≡ unexpired now ns
unfolding drop_expired unexpired
drop_expired-unexpired now from [] h = refl
drop_expired-unexpired now from (n ∷ ns) (at, rest) = elim (Bool-cases (leb n.expires now)) [
  | inl old ↦ rw old (drop_expired-unexpired now n.expires ns rest)
  | inr new ↦
      rw new (ap (λ ms. n ∷ ms) (sym (unexpired-later now n.expires ns (ground arith) rest)))
]

-- With the notifications in order, the timer's handler removes exactly those that have expired, wherever
-- they stand, and sets the timer to the first that is left.
pub expire-unexpired :
    (before now : ℕ) (s : Screen)
    → IsShown before s
    → ((expire now s).notices ≡ unexpired now s.notices)
      × ((expire now s).timer ≡ first_expiry (unexpired now s.notices))
unfolding expire
expire-unexpired before now s h =
    let e = drop_expired-unexpired now 0 s.notices h.ordered in (e, ap first_expiry e)
