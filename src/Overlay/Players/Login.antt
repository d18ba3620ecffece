-- ===== src/Overlay/Players/Login.antt =====
-- login and logout: the seats stay sound, a device that logs in plays for its profile, and a profile
-- that logs out has no seat and no member left.
use anyconsole.Base.{
  ℕ, ◌+◌, ◌<◌, ◌≡◌, refl, ◌∙◌, ap, true, false, ◌||◌, arith, ◌==◌, ltb, lt→ltb, if◌then◌else◌,
  Option, none, some, Bool-cases, Option-cases, inl, inr,
}
use anyconsole.Overlay.Players.{
  Member, Lobby, profiles_max, members_max, seat_of, profile_of, is_device, drop_down, seat_devices,
  seat_for, open_first, take_seat, join, stay, close_picker, log_in, login,
}
use anyconsole.Overlay.Players.Search.{first_from-cases}
use anyconsole.Overlay.Players.Drops.{IsSame, IsDropped, drop_down-IsDropped}
use anyconsole.Overlay.Players.Seated.{
  IsSeated, HasSeat, IsSame-refl, IsSame-trans, tell-IsSame, seat_devices-IsSame,
  close_picker-IsSame, open_first-IsSame, IsSeated-IsSame, IsSeated-IsDropped, take_seat-IsSeated,
}

-- Before the device joins: it plays for nobody, and its profile has a seat.
record IsReady (s : Lobby) (profile : ℕ) (device : Option ℕ) : Type 0 where
  is_seated : IsSeated s
  has_seat : HasSeat s profile
  free : (i : ℕ) → i < s.member_count → is_device device (s.member i).device ≡ false

abbrev seated_for : ℕ → Lobby → Lobby
seated_for profile s = take_seat profile (open_first s)

abbrev alone : ℕ → Option ℕ → Lobby → Lobby
alone profile device s =
    drop_down (λ m. is_device device m.device) stay (seated_for profile s).member_count
      (seated_for profile s)

seat_for-open_first :
    (profile : ℕ) (s : Lobby) → seat_for (open_first s) profile ≡ seat_for s profile
unfolding seat_for seat_of open_first
seat_for-open_first profile s = elim (Bool-cases (s.player_count == 0)) [
  | inl e ↦ rw e refl
  | inr e ↦ rw e refl
]

alone-IsDropped :
    (profile : ℕ) (device : Option ℕ) (s : Lobby)
    → IsDropped (λ m. is_device device m.device) 0 (seated_for profile s) (alone profile device s)
alone-IsDropped profile device s =
    drop_down-IsDropped (λ m. is_device device m.device) stay (λ m t. IsSame-refl t)
      (seated_for profile s)

alone-IsReady :
    (profile : ℕ) (device : Option ℕ) (s : Lobby) (seat : ℕ)
    → seat_for s profile ≡ some seat
    → IsSeated s
    → IsReady (alone profile device s) profile device
alone-IsReady profile device s seat e h =
    let d = alone-IsDropped profile device s in
    let (ok, (k, under, at)) =
      take_seat-IsSeated profile (open_first s) seat (seat_for-open_first profile s ∙ e)
        (IsSeated-IsSame (open_first-IsSame s) h) in
    record {
      is_seated = IsSeated-IsDropped d ok;
      has_seat = (k, rw d.same_players under, rw d.same_player at);
      free = λ i lt. d.clear i (omega arith) lt;
    }

join-IsSeated :
    (profile : ℕ) (device : Option ℕ) (s : Lobby)
    → IsReady s profile device
    → IsSeated (join profile device s)
unfolding join
join-IsSeated profile none s r = r.is_seated
join-IsSeated profile (some device) s r = elim (Bool-cases (ltb s.member_count members_max)) [
  | inl room ↦ rw room (record {
    few = r.is_seated.few;
    distinct = r.is_seated.distinct;
    seated = λ i lt. elim (Bool-cases (s.member_count == i)) [
      | inl last ↦ rw last r.has_seat
      | inr first ↦ rw first (r.is_seated.seated i (ground arith))
    ];
  })
  | inr full ↦ rw full r.is_seated
]

finish-IsSame : (device : Option ℕ) (s : Lobby) → IsSame s (seat_devices (close_picker device s))
finish-IsSame device s = IsSame-trans (close_picker-IsSame device s) (seat_devices-IsSame _)

-- Whoever logs in, with a device or without, refused or not, the seats stay sound.
pub login-IsSeated :
    (profile : ℕ) (device : Option ℕ) (s : Lobby) → IsSeated s → IsSeated (login profile device s)
unfolding login log_in
login-IsSeated profile device s h = elim (Bool-cases (profile == 0 || ltb profiles_max profile)) [
  | inl wrong ↦ rw (wrong, login) h
  | inr right ↦ elim (Option-cases (seat_for s profile)) [
    | inl e ↦ rw (right, e, login) (IsSeated-IsSame (tell-IsSame _ s) h)
    | inr (seat, e) ↦
        rw (right, e, login)
          (IsSeated-IsSame (finish-IsSame device _)
            (join-IsSeated profile device _ (alone-IsReady profile device s seat e h)))
  ]
]

profile_of-IsSame :
    {s t : Lobby} (device : ℕ) → IsSame s t → profile_of t device ≡ profile_of s device
unfolding profile_of
profile_of-IsSame device v = rw (profile_of, v.same_member, v.same_members) refl

abbrev joined : ℕ → ℕ → Lobby → Lobby
joined profile device s = record s {
  member = λ k.
      if s.member_count == k then record { device = device; profile = profile } else s.member k;
  member_count = s.member_count + 1;
}

joined-last :
    (profile device : ℕ) (s : Lobby) (k : ℕ)
    → (s.member_count == k) ≡ true
    → (joined profile device s).member k ≡ record { device = device; profile = profile }
joined-last profile device s k e = rw e refl

joined-first :
    (profile device : ℕ) (s : Lobby) (k : ℕ)
    → (s.member_count == k) ≡ false
    → (joined profile device s).member k ≡ s.member k
joined-first profile device s k e = rw e refl

profile_of-joined :
    (profile device : ℕ) (s : Lobby)
    → ((i : ℕ) → i < s.member_count → is_device (some device) (s.member i).device ≡ false)
    → profile_of (joined profile device s) device ≡ profile
unfolding profile_of
profile_of-joined profile device s free =
    elim (first_from-cases (λ i. ((joined profile device s).member i).device == device)
      (s.member_count + 1) 0) [
        | inl (k, at, f) ↦ elim (Bool-cases (s.member_count == k)) [
          | inl last ↦
              rw (profile_of, at)
                (ap (λ (m : Member). m.profile) (joined-last profile device s k last))
          | inr first ↦ clash k (omega (arith, f.high)) first f.passes
        ]
        | inr (at, missing) ↦ absurd (self (missing s.member_count (omega arith) (omega arith)))
      ]
  where
    clash :
        (k : ℕ)
        → k < s.member_count + 1
        → (s.member_count == k) ≡ false
        → (((joined profile device s).member k).device == device) ≡ true
        → profile_of (joined profile device s) device ≡ profile
    clash k lt first e = absurd (
        ground (
          arith,
          free k (ground arith),
          ap (λ (m : Member). m.device == device) (joined-first profile device s k first),
        ))

    self : ((((joined profile device s).member s.member_count).device == device) ≡ false) → ⊥
    self e = ground (
      arith,
      ap (λ (m : Member). m.device == device)
          (joined-last profile device s s.member_count (ground arith)),
    )

take_seat-member_count :
    (profile : ℕ) (s : Lobby) → (take_seat profile s).member_count ≡ s.member_count
unfolding take_seat
take_seat-member_count profile s = elim (Option-cases (seat_of s profile)) [
  | inl e ↦ rw (e, take_seat) refl
  | inr (k, e) ↦ rw (e, take_seat) refl
]

join_room :
    (profile device : ℕ) (s : Lobby)
    → s.member_count < members_max
    → join profile (some device) s ≡ joined profile device s
unfolding join
join_room profile device s room = rw (lt→ltb s.member_count members_max room) refl

alone-room :
    (profile : ℕ) (device : Option ℕ) (s : Lobby)
    → s.member_count < members_max
    → (alone profile device s).member_count < members_max
alone-room profile device s room = omega (
  arith,
  (alone-IsDropped profile device s).fewer,
  take_seat-member_count profile (open_first s),
  (open_first-IsSame s).same_members,
)

join-HasSeat :
    (profile : ℕ) (device : Option ℕ) (s : Lobby)
    → HasSeat s profile
    → HasSeat (join profile device s) profile
unfolding join
join-HasSeat profile none s h = h
join-HasSeat profile (some device) s h = elim (Bool-cases (ltb s.member_count members_max)) [
  | inl room ↦ rw room h
  | inr full ↦ rw full h
]

HasSeat-IsSame : {s t : Lobby} (profile : ℕ) → IsSame s t → HasSeat s profile → HasSeat t profile
HasSeat-IsSame profile v (k, under, at) = (k, rw v.same_players under, rw v.same_player at)

log_in-profile_of :
    (profile device : ℕ) (s : Lobby) (seat : ℕ)
    → seat_for s profile ≡ some seat
    → IsSeated s
    → s.member_count < members_max
    → profile_of (log_in profile (some device) s) device ≡ profile
unfolding log_in
log_in-profile_of profile device s seat e h room =
    let t = alone profile (some device) s in
    let r = alone-IsReady profile (some device) s seat e h in
    profile_of-IsSame device (finish-IsSame (some device) (join profile (some device) t))
    ∙ (ap (λ u. profile_of u device)
          (join_room profile device t (alone-room profile (some device) s room))
        ∙ profile_of-joined profile device t r.free)

log_in-HasSeat :
    (profile : ℕ) (device : Option ℕ) (s : Lobby) (seat : ℕ)
    → seat_for s profile ≡ some seat
    → IsSeated s
    → HasSeat (log_in profile device s) profile
unfolding log_in
log_in-HasSeat profile device s seat e h =
    HasSeat-IsSame profile (finish-IsSame device _)
      (join-HasSeat profile device _ (alone-IsReady profile device s seat e h).has_seat)

-- From sound seats with room in the table of members, a login of one of the profiles 1 to 4 for which
-- there is a seat makes the device play for that profile, whatever it played for before, and gives the
-- profile a seat.
pub login-profile_of :
    (profile device : ℕ) (s : Lobby) (seat : ℕ)
    → (profile == 0 || ltb profiles_max profile) ≡ false
    → seat_for s profile ≡ some seat
    → IsSeated s
    → s.member_count < members_max
    → (profile_of (login profile (some device) s) device ≡ profile)
      × HasSeat (login profile (some device) s) profile
unfolding login
login-profile_of profile device s seat right e h room =
    rw (right, e, login)
      (
        log_in-profile_of profile device s seat e h room,
        log_in-HasSeat profile (some device) s seat e h,
      )
