-- ===== src/Overlay/Players/Drops.antt =====
-- drop_down removes every member that passes, and no other.
use anyconsole.Base.{
  ℕ, zero, suc, ◌-◌, ◌≤◌, ◌<◌, ◌≡◌, refl, ◌∙◌, sym, ap, Bool, true, false, arith, ◌==◌, ==_iff,
  Bool-cases, inl, inr,
}
use anyconsole.Overlay.Players.{Member, Lobby, drop_member, drop_down}

-- The same players and members.
pub record IsSame (s t : Lobby) : Type 0 where
  pub same_member : t.member ≡ s.member
  pub same_members : t.member_count ≡ s.member_count
  pub same_player : t.player ≡ s.player
  pub same_players : t.player_count ≡ s.player_count

-- From `s` to `t` the members that pass are gone from the `n`-th on, and all others are still there.
pub record IsDropped (test : Member → Bool) (n : ℕ) (s t : Lobby) : Type 0 where
  pub enough : n ≤ t.member_count
  pub fewer : t.member_count ≤ s.member_count
  pub clear : (i : ℕ) → n ≤ i → i < t.member_count → test (t.member i) ≡ false
  pub from :
      (i : ℕ) → i < t.member_count → (k : ℕ) × (k < s.member_count) × (t.member i ≡ s.member k)
  pub kept :
      (i : ℕ)
      → i < s.member_count
      → test (s.member i) ≡ false
      → (k : ℕ) × (k < t.member_count) × (t.member k ≡ s.member i)
  pub same_player : t.player ≡ s.player
  pub same_players : t.player_count ≡ s.player_count

==-refl : (i : ℕ) → (i == i) ≡ true
==-refl i = ground arith

apart : (f : ℕ → Bool) (i k : ℕ) → f i ≡ true → f k ≡ false → (i == k) ≡ false
apart f i k there away = elim (Bool-cases (i == k)) [
  | inl same ↦ cc (ap f ((==_iff i k).0 same))
  | inr other ↦ other
]

drop-IsDropped :
    (test : Member → Bool) (n : ℕ) (s : Lobby)
    → n < s.member_count
    → test (s.member n) ≡ true
    → ((i : ℕ) → suc n ≤ i → i < s.member_count → test (s.member i) ≡ false)
    → IsDropped test n s (drop_member n s)
unfolding drop_member
drop-IsDropped test n s lt yields above = record {
  enough = omega arith;
  fewer = omega arith;
  clear = λ i low high. elim (Bool-cases (n == i)) [
    | inl e ↦ rw e (above (s.member_count - 1) (ground arith) (omega arith))
    | inr e ↦ rw e (above i (ground arith) (omega arith))
  ];
  from = λ i high. elim (Bool-cases (n == i)) [
    | inl e ↦ (s.member_count - 1, omega arith, rw e refl)
    | inr e ↦ (i, omega arith, rw e refl)
  ];
  kept = λ i high away.
      let ne = apart (λ k. test (s.member k)) n i yields away in
      elim (Bool-cases (s.member_count - 1 == i)) [
        | inl last ↦ (n, ground arith, rw (==-refl n) (ap s.member ((==_iff _ i).0 last)))
        | inr inner ↦ (i, ground arith, rw ne refl)
      ];
  same_player = refl;
  same_players = refl;
}

stay-IsDropped :
    (test : Member → Bool) (n : ℕ) (s : Lobby)
    → n < s.member_count
    → test (s.member n) ≡ false
    → ((i : ℕ) → suc n ≤ i → i < s.member_count → test (s.member i) ≡ false)
    → IsDropped test n s s
stay-IsDropped test n s lt away above = record {
  enough = omega arith;
  fewer = omega arith;
  clear = λ i low high. elim (Bool-cases (n == i)) [
    | inl e ↦ ap (λ k. test (s.member k)) (sym ((==_iff n i).0 e)) ∙ away
    | inr e ↦ above i (ground arith) high
  ];
  from = λ i high. (i, high, refl);
  kept = λ i high other. (i, high, refl);
  same_player = refl;
  same_players = refl;
}

IsDropped-trans :
    {test : Member → Bool} {n m : ℕ} {s t u : Lobby}
    → IsDropped test n s t
    → IsDropped test m t u
    → IsDropped test m s u
IsDropped-trans {test} a b = record {
  enough = b.enough;
  fewer = omega (arith, a.fewer, b.fewer);
  clear = b.clear;
  from = λ i high.
      let (k, below, e) = b.from i high in let (j, under, f) = a.from k below in (j, under, e ∙ f);
  kept = λ i high other.
      let (k, below, e) = a.kept i high other in
      let (j, under, f) = b.kept k below (ap test e ∙ other) in (j, under, f ∙ e);
  same_player = b.same_player ∙ a.same_player;
  same_players = b.same_players ∙ a.same_players;
}

IsDropped-IsSame :
    {test : Member → Bool} {n : ℕ} {s t u : Lobby}
    → IsSame s t
    → IsDropped test n t u
    → IsDropped test n s u
IsDropped-IsSame {test} a b = record {
  enough = b.enough;
  fewer = omega (arith, b.fewer, a.same_members);
  clear = b.clear;
  from = λ i high.
      let (k, below, e) = b.from i high in
      (k, omega (arith, a.same_members), e ∙ ap (λ f. f k) a.same_member);
  kept = λ i high other.
      let (k, below, e) =
        b.kept i (omega (arith, a.same_members)) (ap (λ f. test (f i)) a.same_member ∙ other) in
      (k, below, e ∙ ap (λ f. f i) a.same_member);
  same_player = b.same_player ∙ a.same_player;
  same_players = b.same_players ∙ a.same_players;
}

module _ (test : Member → Bool) (leave : Member → Lobby → Lobby)
    (same : (m : Member) (s : Lobby) → IsSame s (leave m s)) where
  drop_round :
      (n : ℕ) (s : Lobby)
      → n < s.member_count
      → test (s.member n) ≡ true
      → ((i : ℕ) → suc n ≤ i → i < s.member_count → test (s.member i) ≡ false)
      → IsDropped test n s (drop_member n (leave (s.member n) s))
  drop_round n s lt yields above =
      let k = same (s.member n) s in
      IsDropped-IsSame k (
        drop-IsDropped test n (leave (s.member n) s) (omega (arith, k.same_members))
          (ap (λ f. test (f n)) k.same_member ∙ yields)
          λ i low high.
            ap (λ f. test (f i)) k.same_member ∙ above i low (omega (arith, k.same_members)))

  drop_down_from :
      (n : ℕ) (s : Lobby)
      → n ≤ s.member_count
      → ((i : ℕ) → n ≤ i → i < s.member_count → test (s.member i) ≡ false)
      → IsDropped test 0 s (drop_down test leave n s)
  unfolding drop_down
  drop_down_from zero s le above = record {
    enough = omega arith;
    fewer = omega arith;
    clear = above;
    from = λ i high. (i, high, refl);
    kept = λ i high other. (i, high, refl);
    same_player = refl;
    same_players = refl;
  }
  drop_down_from (suc n) s le above = elim (Bool-cases (test (s.member n))) [
    | inl e ↦
        (let a = drop_round n s (omega arith) e above in
          rw e (IsDropped-trans a (drop_down_from n _ a.enough a.clear)))
    | inr e ↦
        (let a = stay-IsDropped test n s (omega arith) e above in
          rw e (IsDropped-trans a (drop_down_from n s a.enough a.clear)))
  ]

  -- Going down the whole table drops exactly the members that pass: each of those is gone, each other
  -- one is still there, none is new, and the players are as they were.
  pub drop_down-IsDropped : (s : Lobby) → IsDropped test 0 s (drop_down test leave s.member_count s)
  drop_down-IsDropped s =
      drop_down_from s.member_count s (omega arith) λ i low high. absurd (omega arith)
