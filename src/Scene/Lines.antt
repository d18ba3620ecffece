-- ===== src/Scene/Lines.antt =====
-- guest/scene.c: how a text is broken into lines (break_lines).
pub mod Partition
pub mod Tests
use anyconsole.Base.{
  ℕ, zero, suc, ◌+◌, Bool, true, false, not, ◌&&◌, ◌||◌, Option, none, some, List, [], ◌∷◌, ltb,
  ◌==◌, if◌then◌else◌,
}
use anyconsole.Base.Int.{ℤ, pos}
use anyconsole.Scene.Floats.{Floats}

module _ ⦃F : Floats⦄ where
  open F use {Float, of_int, add, sub, mul, less, same}

  pub record Shaped : Type 0 where
    pub advance : Float
    pub breakable : Bool

  pub record Line : Type 0 where
    pub start : ℕ
    pub end : ℕ
    pub width : Float

  -- What the lines were last broken for.
  pub record Broken : Type 0 where
    pub available : Float
    pub ratio : Float
    pub wrap : Bool

  -- The text of a node.
  pub record Text : Type 0 where
    pub glyphs : List Shaped
    pub lines : List Line
    pub broken : Option Broken

  -- The variables of the loop. `last_break` is none for -1.
  pub record Cursor : Type 0 where
    pub start : ℕ
    pub last_break : Option ℕ
    pub width : Float
    pub width_at_break : Float

  -- last_break > start
  abbrev pub breaks_after : Option ℕ → ℕ → Bool
  breaks_after none start = false
  breaks_after (some b) start = ltb start b

  unfoldable pub note_break : ℕ → Shaped → Cursor → Cursor
  note_break i g c =
      if g.breakable then record c { last_break = some i; width_at_break = c.width } else c

  -- Where the line ends that the glyph at `i` does not fit on, and the width of it.
  unfoldable pub line_end : Option ℕ → ℕ → Cursor → ℕ × Float
  line_end none i c = (i, c.width)
  line_end (some b) i c = if ltb c.start b then (b, c.width_at_break) else (i, c.width)

  unfoldable pub overflows : Broken → Float → ℕ → Cursor → Bool
  overflows b advance i c = b.wrap && less b.available (add c.width advance) && ltb c.start i

  -- The cursor after a line that ends at `end`.
  unfoldable pub next_line : ℕ → Cursor → Cursor
  next_line end c = record {
    start = end;
    last_break = none;
    width =
        if breaks_after c.last_break c.start then sub c.width c.width_at_break else of_int (pos 0);
    width_at_break = c.width_at_break;
  }

  unfoldable pub move_on : Float → Cursor → Cursor
  move_on advance c = record c { width = add c.width advance }

  -- The rounds of the loop from the glyph at `i`, and the line that is left after them.
  unfoldable pub break_from : Broken → ℕ → List Shaped → Cursor → List Line
  break_from b i [] c = record { start = c.start; end = i; width = c.width } ∷ []
  break_from b i (g ∷ gs) c =
      let advance = mul g.advance b.ratio in
      let noted = note_break i g c in
      let (end, width) = line_end noted.last_break i noted in
      if overflows b advance i noted
      then record { start = noted.start; end = end; width = width }
        ∷ break_from b (suc i) gs (move_on advance (next_line end noted))
      else break_from b (suc i) gs (move_on advance noted)

  abbrev pub first_cursor : Cursor
  first_cursor = record {
    start = 0;
    last_break = none;
    width = of_int (pos 0);
    width_at_break = of_int (pos 0);
  }

  unfoldable pub break_all : Broken → List Shaped → List Line
  break_all b [] = []
  break_all b (g ∷ gs) = break_from b 0 (g ∷ gs) first_cursor

  abbrev pub same_wrap : Bool → Bool → Bool
  same_wrap true w = w
  same_wrap false w = not w

  abbrev pub is_broken_for : Option Broken → Broken → Bool
  is_broken_for none b = false
  is_broken_for (some o) b =
      same o.available b.available && same o.ratio b.ratio && same_wrap o.wrap b.wrap

  unfoldable pub break_lines : Broken → Text → Text
  break_lines b t =
      if is_broken_for t.broken b
      then t
      else record t { broken = some b; lines = break_all b t.glyphs }
