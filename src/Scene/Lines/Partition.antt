-- ===== src/Scene/Lines/Partition.antt =====
-- The lines of a text take each of its glyphs once, in order: break_lines.
use anyconsole.Base.{
  ℕ, suc, ◌+◌, ◌≤◌, ◌<◌, ◌≡◌, refl, subst, ◌⊎◌, inl, inr, true, Option, none, some, List, [], ◌∷◌,
  length, arith, Bool-cases,
}
use anyconsole.Scene.Floats.{Floats}
use anyconsole.Scene.Lines.{
  Shaped, Line, Broken, Cursor, note_break, line_end, overflows, next_line, move_on, break_from,
  first_cursor, break_all,
}

module _ ⦃F : Floats⦄ where
  open F use {Float, mul}

  -- Lines, none of them empty, that lead from one glyph to another.
  pub data Chain : ℕ → List Line → ℕ → Type 0 where
    last : (a b : ℕ) (w : Float) → a < b → Chain a (record { start = a; end = b; width = w } ∷ []) b
    next :
        (a m b : ℕ) (w : Float) (ls : List Line)
        → a < m
        → Chain m ls b
        → Chain a (record { start = a; end = m; width = w } ∷ ls) b

  -- The last break is before the glyph at `i`.
  abbrev Before : Option ℕ → ℕ → Type 0
  Before none i = Unit
  Before (some b) i = b < i

  note_break-Before :
      (i : ℕ) (g : Shaped) (c : Cursor)
      → Before c.last_break i
      → Before (note_break i g c).last_break (suc i)
  unfolding note_break
  note_break-Before i g c h = elim (Bool-cases g.breakable) [
    | inl e ↦ rw e (omega arith)
    | inr e ↦ rw e (later c.last_break h)
  ]
    where
      later : (o : Option ℕ) → Before o i → Before o (suc i)
      later none h = tt
      later (some b) h = omega arith

  start-note_break : (i : ℕ) (g : Shaped) (c : Cursor) → (note_break i g c).start ≡ c.start
  unfolding note_break
  start-note_break i g c = elim (Bool-cases g.breakable) [ inl e ↦ rw e refl | inr e ↦ rw e refl ]

  line_end-lt :
      (o : Option ℕ) (i : ℕ) (c : Cursor)
      → c.start < i
      → Before o (suc i)
      → (c.start < (line_end o i c).0) × ((line_end o i c).0 ≤ i)
  unfolding line_end
  line_end-lt none i c lt h = (lt, omega arith)
  line_end-lt (some b) i c lt h = (ground arith, ground arith)

  moved-Chain : (a c : ℕ) {b d : ℕ} {ls : List Line} → a ≡ c → b ≡ d → Chain a ls b → Chain c ls d
  moved-Chain a c {b} {d} {ls} p q h = subst (λ x. Chain x ls d) p (subst (Chain a ls) q h)

  overflows-lt :
      (b : Broken) (advance : Float) (i : ℕ) (c : Cursor)
      → overflows b advance i c ≡ true
      → c.start < i
  unfolding overflows
  overflows-lt b advance i c e = ground arith

  break_from-Chain :
      (b : Broken) (i : ℕ) (gs : List Shaped) (c : Cursor)
      → c.start ≤ i
      → c.start < i + length gs
      → Before c.last_break i
      → Chain c.start (break_from b i gs c) (i + length gs)
  unfolding break_from next_line move_on
  break_from-Chain b i [] c le lt h =
      moved-Chain c.start c.start refl (omega arith) (last c.start i c.width (omega arith))
  break_from-Chain b i (g ∷ gs) c le lt h =
      elim (Bool-cases (overflows b (mul g.advance b.ratio) i noted)) [
        | inl e ↦ rw e (
            let start : noted.start ≡ c.start = start-note_break i g c in
            let at =
              line_end-lt noted.last_break i noted
                (overflows-lt b (mul g.advance b.ratio) i noted e) (note_break-Before i g c h) in
            let end = (line_end noted.last_break i noted).0 in
            moved-Chain noted.start c.start start (omega arith) (
              next noted.start end (suc i + length gs) _ _ at.0
                (break_from-Chain b (suc i) gs _ (omega (arith, at.1)) (omega (arith, at.1)) tt)))
        | inr e ↦ rw e (
            let start : noted.start ≡ c.start = start-note_break i g c in
            moved-Chain noted.start c.start start (omega arith) (
              break_from-Chain b (suc i) gs _ (omega (arith, start)) (omega (arith, start))
                (note_break-Before i g c h)))
      ]
    where
      noted : Cursor
      noted = note_break i g c

  -- However a text is broken, its lines are not empty and take each of its glyphs once, in order: a
  -- text without glyphs has no line, and another has lines from its first glyph to its last.
  pub break_all-Chain :
      (b : Broken) (gs : List Shaped)
      → ((gs ≡ []) × (break_all b gs ≡ [])) ⊎ Chain 0 (break_all b gs) (length gs)
  unfolding break_all
  break_all-Chain b [] = inl (refl, refl)
  break_all-Chain b (g ∷ gs) = inr (
      moved-Chain 0 0 refl (omega arith)
        (break_from-Chain b 0 (g ∷ gs) first_cursor (omega arith) (omega arith) tt))

  length-Chain : (a b : ℕ) (ls : List Line) → Chain a ls b → a + length ls ≤ b
  length-Chain a b ls (last _ _ w lt) = omega arith
  length-Chain a b ls (next _ m _ w rest lt h) = omega (arith, length-Chain m b rest h)

  -- A text has no more lines than glyphs, so that the room for one line more than glyphs is enough.
  pub break_all-length : (b : Broken) (gs : List Shaped) → length (break_all b gs) ≤ length gs
  break_all-length b gs = elim (break_all-Chain b gs) [
    | inl (e, empty) ↦ rw empty (omega arith)
    | inr h ↦ omega (arith, length-Chain 0 (length gs) (break_all b gs) h)
  ]
