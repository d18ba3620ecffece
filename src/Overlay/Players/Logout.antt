-- ===== src/Overlay/Players/Logout.antt =====
-- logout: the profile and its devices are gone, and everyone else keeps playing.
use anyconsole.Base.{
  ℕ, ◌+◌, ◌-◌, ◌≤◌, ◌<◌, ◌≡◌, refl, ◌∙◌, sym, ap, false, arith, ◌==◌, ==_iff, ltb, ltb→lt,
  if◌then◌else◌, Bool-cases, inl, inr,
}
use anyconsole.Overlay.Players.{
  Lobby, seat_of, drop_down, close_owned, leave_padd, leave_seat, logout,
}
use anyconsole.Overlay.Players.Search.{first_from-cases}
use anyconsole.Overlay.Players.Drops.{IsSame, IsDropped, drop_down-IsDropped}
use anyconsole.Overlay.Players.Seated.{
  IsSeated, HasSeat, seat_devices-IsSame, close_owned-IsSame, IsSeated-IsSame, IsSeated-IsDropped,
}

-- From `s` to `t` the profile has gone: no seat, no device, the seats sound, all others still there.
pub record IsLoggedOut (profile : ℕ) (s t : Lobby) : Type 0 where
  pub is_seated : IsSeated t
  pub no_seat : (k : ℕ) → k < t.player_count → (t.player k == profile) ≡ false
  pub no_device : (i : ℕ) → i < t.member_count → ((t.member i).profile == profile) ≡ false
  pub others_seated : (q : ℕ) → (q == profile) ≡ false → HasSeat s q → HasSeat t q
  pub others_play :
      (i : ℕ)
      → i < s.member_count
      → ((s.member i).profile == profile) ≡ false
      → (k : ℕ) × (k < t.member_count) × (t.member k ≡ s.member i)

left_as : (profile : ℕ) (s : Lobby) → Lobby
left_as profile s =
    drop_down (λ m. m.profile == profile) leave_padd (close_owned profile s.games 0 s).member_count
      (close_owned profile s.games 0 s)

left-IsDropped :
    (profile : ℕ) (s : Lobby)
    → IsDropped (λ m. m.profile == profile) 0 (close_owned profile s.games 0 s) (left_as profile s)
unfolding left_as
left-IsDropped profile s =
    drop_down-IsDropped (λ m. m.profile == profile) leave_padd
      (λ m t. record {
        same_member = refl;
        same_members = refl;
        same_player = refl;
        same_players = refl;
      })
      (close_owned profile s.games 0 s)

leave_seat-before : (s : Lobby) (seat k : ℕ) → k < seat → (leave_seat seat s).player k ≡ s.player k
unfolding leave_seat
leave_seat-before s seat k lt = ground arith

leave_seat-after :
    (s : Lobby) (seat k : ℕ) → seat ≤ k → (leave_seat seat s).player k ≡ s.player (k + 1)
unfolding leave_seat
leave_seat-after s seat k le = ground arith

player_count-leave_seat :
    (s : Lobby) (seat : ℕ) → (leave_seat seat s).player_count ≡ s.player_count - 1
unfolding leave_seat
player_count-leave_seat s seat = refl

-- Where the player of a seat comes from: another seat of before.
record IsMoved (s : Lobby) (seat k : ℕ) : Type 0 where
  was : ℕ
  high : was < s.player_count
  other : (was ≡ seat) → ⊥
  order : was ≡ (if ltb k seat then k else k + 1)
  same : (leave_seat seat s).player k ≡ s.player was

moved : (s : Lobby) (seat k : ℕ) → seat < s.player_count → k < s.player_count - 1 → IsMoved s seat k
moved s seat k lt under = elim (Bool-cases (ltb k seat)) [
  | inl e ↦ record {
    was = k;
    high = omega arith;
    other = λ q. ground arith;
    order = rw e refl;
    same = leave_seat-before s seat k (ground arith);
  }
  | inr e ↦ record {
    was = k + 1;
    high = omega arith;
    other = λ q. ground arith;
    order = rw e refl;
    same = leave_seat-after s seat k (ground arith);
  }
]

differ : (a b : ℕ) → ((a ≡ b) → ⊥) → (a == b) ≡ false
differ a b h = elim (Bool-cases (a == b)) [ inl e ↦ absurd (h ((==_iff a b).0 e)) | inr e ↦ e ]

-- Taking the player of a seat out moves the ones after it up.
leave_seat-HasSeat :
    (s : Lobby) (seat q : ℕ)
    → seat < s.player_count
    → (q == s.player seat) ≡ false
    → HasSeat s q
    → HasSeat (leave_seat seat s) q
leave_seat-HasSeat s seat q lt other (k, under, at) = elim (Bool-cases (ltb k seat)) [
  | inl before ↦ (
    k,
    omega (arith, player_count-leave_seat s seat, ltb→lt k seat before),
    leave_seat-before s seat k (ground arith) ∙ at,
  )
  | inr after ↦
      (let far = above after in
        (
          k - 1,
          omega (arith, player_count-leave_seat s seat),
          leave_seat-after s seat (k - 1) (omega arith) ∙ (ap s.player (omega arith) ∙ at),
        ))
]
  where
    above : ltb k seat ≡ false → seat < k
    above after = elim (Bool-cases (seat == k)) [
      | inl e ↦ cc (ap (λ i. q == s.player i) ((==_iff seat k).0 e), at, (==_iff q q).1 refl)
      | inr e ↦ ground arith
    ]

leave_seat-no_seat :
    (s : Lobby) (seat k : ℕ)
    → IsSeated s
    → seat < s.player_count
    → k < s.player_count - 1
    → ((leave_seat seat s).player k == s.player seat) ≡ false
leave_seat-no_seat s seat k h lt under =
    let m = moved s seat k lt under in
    differ _ _ λ e. m.other (h.distinct m.was seat m.high lt (sym m.same ∙ e))

leave_seat-distinct :
    (s : Lobby) (seat i k : ℕ)
    → IsSeated s
    → seat < s.player_count
    → i < s.player_count - 1
    → k < s.player_count - 1
    → (leave_seat seat s).player i ≡ (leave_seat seat s).player k
    → i ≡ k
leave_seat-distinct s seat i k h lt low high e =
    let m = moved s seat i lt low in
    let n = moved s seat k lt high in
    let same = h.distinct m.was n.was m.high n.high (sym m.same ∙ (e ∙ n.same)) in
    ground (arith, m.order, n.order, same)

members-leave_seat :
    (s : Lobby) (seat : ℕ)
    → ((leave_seat seat s).member ≡ s.member) × ((leave_seat seat s).member_count ≡ s.member_count)
unfolding leave_seat
members-leave_seat s seat = (refl, refl)

leave_seat-IsSeated :
    (s : Lobby) (seat : ℕ)
    → IsSeated s
    → seat < s.player_count
    → ((i : ℕ) → i < s.member_count → ((s.member i).profile == s.player seat) ≡ false)
    → IsSeated (leave_seat seat s)
leave_seat-IsSeated s seat h lt gone = record {
  few = omega (arith, player_count-leave_seat s seat, h.few);
  distinct = λ i k low high e.
      leave_seat-distinct s seat i k h lt (omega (arith, player_count-leave_seat s seat))
        (omega (arith, player_count-leave_seat s seat)) e;
  seated =
      rw ((members-leave_seat s seat).0, (members-leave_seat s seat).1)
        λ i under.
          leave_seat-HasSeat s seat (s.member i).profile lt (gone i under) (h.seated i under);
}

-- The handler, once its seat has been found.
left-IsLoggedOut :
    (profile : ℕ) (s : Lobby) (seat : ℕ)
    → IsSeated s
    → seat < s.player_count
    → s.player seat ≡ profile
    → IsLoggedOut profile s (leave_seat seat (left_as profile s))
left-IsLoggedOut profile s seat h lt at = record {
  is_seated =
      leave_seat-IsSeated t seat sound under (λ i low. rw here (d.clear i (omega arith) low));
  no_seat = λ k low.
      ap (λ p. (leave_seat seat t).player k == p) (sym here)
      ∙ leave_seat-no_seat t seat k sound under (omega (arith, player_count-leave_seat t seat));
  no_device =
      rw ((members-leave_seat t seat).0, (members-leave_seat t seat).1)
        λ i low. d.clear i (omega arith) low;
  others_seated = λ q other (k, low, e).
      leave_seat-HasSeat t seat q under (ap (λ p. q == p) here ∙ other)
        (k, rw count low, ap (λ f. f k) players ∙ e);
  others_play =
      rw ((members-leave_seat t seat).0, (members-leave_seat t seat).1)
        λ i low other.
          let (k, below, e) =
            d.kept i (rw c.same_members low)
              (ap (λ f. (f i).profile == profile) c.same_member ∙ other) in
          (k, below, e ∙ ap (λ f. f i) c.same_member);
}
  where
    c : IsSame s (close_owned profile s.games 0 s)
    c = close_owned-IsSame profile s.games 0 s

    t : Lobby
    t = left_as profile s

    d :
        IsDropped
          (λ m. m.profile == profile)
          0
          (close_owned profile s.games 0 s)
          (left_as profile s)
    d = left-IsDropped profile s

    players : (left_as profile s).player ≡ s.player
    players = d.same_player ∙ c.same_player

    count : (left_as profile s).player_count ≡ s.player_count
    count = d.same_players ∙ c.same_players

    sound : IsSeated (left_as profile s)
    sound = IsSeated-IsDropped d (IsSeated-IsSame c h)

    here : (left_as profile s).player seat ≡ profile
    here = ap (λ f. f seat) players ∙ at

    under : seat < (left_as profile s).player_count
    under = rw count lt

IsLoggedOut-IsSame :
    {profile : ℕ} {s t u : Lobby} → IsLoggedOut profile s t → IsSame t u → IsLoggedOut profile s u
IsLoggedOut-IsSame h v = record {
  is_seated = IsSeated-IsSame v h.is_seated;
  no_seat = rw (v.same_players, v.same_player) h.no_seat;
  no_device = rw (v.same_members, v.same_member) h.no_device;
  others_seated = rw (v.same_players, v.same_player) h.others_seated;
  others_play = rw (v.same_members, v.same_member) h.others_play;
}

-- From sound seats, the logout of a profile that plays leaves no seat and no device with that profile;
-- every other player still has a seat, every other member is still there, and the seats stay sound.
pub logout-IsLoggedOut :
    (profile : ℕ) (s : Lobby)
    → IsSeated s
    → HasSeat s profile
    → IsLoggedOut profile s (logout profile s)
unfolding logout seat_of left_as
logout-IsLoggedOut profile s h (k, under, e) =
    elim (first_from-cases (λ i. s.player i == profile) s.player_count 0) [
      | inl (seat, at, f) ↦
          rw (at, logout)
            (IsLoggedOut-IsSame
              (left-IsLoggedOut profile s seat h (omega (arith, f.high))
                ((==_iff _ profile).0 f.passes))
              (seat_devices-IsSame _))
      | inr (at, missing) ↦
          cc (missing k (omega arith) (omega arith), (==_iff (s.player k) profile).1 e)
    ]

-- A profile that does not play changes nothing by logging out.
pub logout-IsSeated : (profile : ℕ) (s : Lobby) → IsSeated s → IsSeated (logout profile s)
unfolding logout seat_of
logout-IsSeated profile s h =
    elim (first_from-cases (λ i. s.player i == profile) s.player_count 0) [
      | inl (seat, at, f) ↦
          (logout-IsLoggedOut profile s h
            (seat, omega (arith, f.high), (==_iff (s.player seat) profile).0 f.passes)).is_seated
      | inr (at, missing) ↦ rw (at, logout) h
    ]
