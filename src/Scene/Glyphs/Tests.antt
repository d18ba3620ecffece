-- ===== src/Scene/Glyphs/Tests.antt =====
-- Examples of a face's glyphs: an empty table, of which the first glyph makes one of 256 slots.
use anyconsole.Base.{refl, none, some, []}
use anyconsole.Base.Int.{pos}
use anyconsole.Scene.Glyphs.{Face, Rendered, glyph}
use anyconsole.Scene.Glyphs.Found.{IsFace}
use anyconsole.Scene.Glyphs.Kept.{IsDrawn, glyph-IsDrawn}

abbrev empty : Face
empty = record { slots = λ _. none; count = 0; capacity = 0 }

abbrev bitmap : Rendered
bitmap = record { width = 12; height = 20; left = pos 1; top = pos 18 }

empty-IsFace : IsFace empty
empty-IsFace = record { counted = refl }

glyph-IsDrawn_example : IsDrawn 300 (glyph 300 (some bitmap) (empty, []))
glyph-IsDrawn_example = glyph-IsDrawn 300 (some bitmap) empty [] empty-IsFace
