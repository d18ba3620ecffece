-- ===== src/Overlay/Players.antt =====
-- guest/overlay.c: who plays, on which seat, with which device (seat_of, profile_of, drop_member,
-- open_picker, login, logout, adopt_members, load_session, seat_devices).
pub mod Search
pub mod Drops
pub mod Seated
pub mod Login
pub mod Logout
pub mod Session
pub mod Adopt
mod Tests
use anyconsole.Base.{
  ℕ, zero, suc, ◌+◌, ◌-◌, Bool, true, false, not, ◌&&◌, ◌||◌, Option, none, some, List, [], ◌∷◌,
  ltb, leb, ◌==◌, if◌then◌else◌,
}
use anyconsole.Base.Loop.{for_below}

-- PADS, PROFILES and INPUT_DEVICES_MAX.
abbrev pub pads_max : ℕ
pads_max = 4

abbrev pub profiles_max : ℕ
profiles_max = 4

abbrev pub members_max : ℕ
members_max = 64

-- struct member: a device that plays for a profile.
pub record Member : Type 0 where
  pub device : ℕ
  pub profile : ℕ

-- A game, as far as logging out needs it: its owner, and whether it has a process.
pub record Owned : Type 0 where
  pub owner : ℕ
  pub running : Bool

-- What the overlay writes, newest first. `assign` has the device and padd's number of the seat.
pub data Told : Type 0 where
  session_saved : Told
  pads : ℕ → Told
  assign : ℕ → ℕ → Told
  off : ℕ → Told
  close_game : ℕ → Told
  pads_taken : Told
  apply_modes : Told

-- players[], members[] and the globals that follow them. NO_DEVICE is `none`, and `whois_selected` is
-- the row of the picker's view.
pub record Lobby : Type 0 where
  pub player : ℕ → ℕ
  pub player_count : ℕ
  pub member : ℕ → Member
  pub member_count : ℕ
  pub focus : Option ℕ
  pub picker : Option ℕ
  pub input_device : Option ℕ
  pub whois_selected : ℕ
  pub guide_shown : Bool
  pub dashboard_open : Bool
  pub dashboard_depth : ℕ
  pub guide_depths : ℕ → ℕ
  pub games : List Owned
  pub is_changed : Bool
  pub told : List Told

abbrev pub tell : Told → Lobby → Lobby
tell t s = record s { told = t ∷ s.told }

-- The first of the `n` indices from `i` on that passes.
unfoldable pub first_from : (ℕ → Bool) → ℕ → ℕ → Option ℕ
first_from test zero i = none
first_from test (suc n) i =
    let later = first_from test n (suc i) in if test i then some i else later

unfoldable pub seat_of : Lobby → ℕ → Option ℕ
seat_of s profile = first_from (λ i. s.player i == profile) s.player_count 0

abbrev pub profile_at : Lobby → Option ℕ → ℕ
profile_at s none = 0
profile_at s (some i) = (s.member i).profile

-- 0 for a device that plays for nobody.
unfoldable pub profile_of : Lobby → ℕ → ℕ
profile_of s device =
    profile_at s (first_from (λ i. (s.member i).device == device) s.member_count 0)

abbrev pub is_device : Option ℕ → ℕ → Bool
is_device none device = false
is_device (some d) device = d == device

-- The last member takes the place of the dropped one.
unfoldable pub drop_member : ℕ → Lobby → Lobby
drop_member i s =
    let lost = is_device s.focus (s.member i).device in
    let last = s.member_count - 1 in
    record s {
      guide_shown = if lost then false else s.guide_shown;
      focus = if lost then none else s.focus;
      member = λ k. if i == k then s.member last else s.member k;
      member_count = last;
    }

-- Both login and logout go down members[] and drop those that pass, after telling padd about each.
unfoldable pub drop_down : (Member → Bool) → (Member → Lobby → Lobby) → ℕ → Lobby → Lobby
drop_down test leave zero s = s
drop_down test leave (suc n) s =
    drop_down test leave n (if test (s.member n) then drop_member n (leave (s.member n) s) else s)

unfoldable pub seat_number : Lobby → ℕ → ℕ
seat_number s profile = elim (seat_of s profile) [ none ↦ 0 | some seat ↦ seat + 1 ]

unfoldable pub seat_devices : Lobby → Lobby
seat_devices s =
    let announced = tell (Told.pads s.player_count) (tell Told.session_saved s) in
    let assigned =
      for_below s.member_count
        (λ i t. tell (Told.assign (s.member i).device (seat_number s (s.member i).profile)) t)
        announced in
    record (tell Told.apply_modes assigned) { is_changed = true }

unfoldable pub open_picker : ℕ → Lobby → Lobby
open_picker device s = record s {
  picker = some device;
  input_device = some device;
  whois_selected = 0;
  is_changed = true;
}

unfoldable pub seat_for : Lobby → ℕ → Option ℕ
seat_for s profile = elim (seat_of s profile) [
  | some seat ↦ some seat
  | none ↦ if ltb s.player_count pads_max then some s.player_count else none
]

-- The first player finds the dashboard open.
unfoldable pub open_first : Lobby → Lobby
open_first s =
    if s.player_count == 0
    then record s { dashboard_open = true; dashboard_depth = 1; guide_depths = λ _. 0 }
    else s

unfoldable pub take_seat : ℕ → Lobby → Lobby
take_seat profile s = elim (seat_of s profile) [
  | some seat ↦ s
  | none ↦ record s {
    player = λ k. if s.player_count == k then profile else s.player k;
    player_count = s.player_count + 1;
  }
]

-- A device plays for one profile. A login by another program has no device: `none`.
unfoldable pub join : ℕ → Option ℕ → Lobby → Lobby
join profile none s = s
join profile (some device) s =
    if ltb s.member_count members_max
    then record s {
      member = λ k.
          if s.member_count == k then record { device = device; profile = profile } else s.member k;
      member_count = s.member_count + 1;
    }
    else s

abbrev pub stay : Member → Lobby → Lobby
stay m s = s

abbrev pub same_device : Option ℕ → Option ℕ → Bool
same_device none none = true
same_device none (some e) = false
same_device (some d) none = false
same_device (some d) (some e) = d == e

abbrev pub close_picker : Option ℕ → Lobby → Lobby
close_picker device s = if same_device device s.picker then record s { picker = none } else s

-- login, once a seat has been found.
unfoldable pub log_in : ℕ → Option ℕ → Lobby → Lobby
log_in profile device s =
    let seated = take_seat profile (open_first s) in
    let alone = drop_down (λ m. is_device device m.device) stay seated.member_count seated in
    seat_devices (close_picker device (join profile device alone))

unfoldable pub login : ℕ → Option ℕ → Lobby → Lobby
login profile device s =
    if profile == 0 || ltb profiles_max profile then s else elim (seat_for s profile) [
      | none ↦ tell Told.pads_taken s
      | some seat ↦ log_in profile device s
    ]

-- The games that the profile owns and that run.
unfoldable pub close_owned : ℕ → List Owned → ℕ → Lobby → Lobby
close_owned profile [] i s = s
close_owned profile (g ∷ gs) i s =
    close_owned profile gs (i + 1)
      (if g.owner == profile && g.running then tell (Told.close_game i) s else s)

abbrev pub leave_padd : Member → Lobby → Lobby
leave_padd m s = tell (Told.off m.device) (tell (Told.assign m.device 0) s)

-- The players after the one that goes move up by a seat.
unfoldable pub leave_seat : ℕ → Lobby → Lobby
leave_seat seat s = record s {
  player_count = s.player_count - 1;
  player = λ k. if ltb k seat then s.player k else s.player (k + 1);
  guide_shown = false;
}

unfoldable pub logout : ℕ → Lobby → Lobby
logout profile s = elim (seat_of s profile) [
  | none ↦ s
  | some seat ↦
      let closed = close_owned profile s.games 0 s in
      seat_devices (
        leave_seat seat
          (drop_down (λ m. m.profile == profile) leave_padd closed.member_count closed))
]
