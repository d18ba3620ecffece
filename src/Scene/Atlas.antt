-- ===== src/Scene/Atlas.antt =====
-- guest/scene.c: the pages of the glyph atlas and where a glyph goes (place). The texture of a page
-- is OpenGL's. The page that is filled comes first in the list.
pub mod Packed
mod Tests
use anyconsole.Base.{
  ℕ, ◌+◌, ◌-◌, Bool, Option, none, some, List, [], ◌∷◌, length, ltb, ◌==◌, if◌then◌else◌,
}

abbrev pub atlas_size : ℕ
atlas_size = 2048

abbrev pub atlas_pages_max : ℕ
atlas_pages_max = 16

abbrev pub glyph_padding : ℕ
glyph_padding = 1

pub record Page : Type 0 where
  pub x : ℕ
  pub y : ℕ
  pub shelf : ℕ

abbrev pub blank : Page
blank = record { x = 0; y = 0; shelf = 0 }

-- Where a bitmap lies.
pub record Spot : Type 0 where
  pub page : ℕ
  pub x : ℕ
  pub y : ℕ
  pub width : ℕ
  pub height : ℕ

-- A new shelf, where the bitmap is too wide for what is left of this one.
unfoldable pub break_shelf : ℕ → Page → Page
break_shelf width page =
    if ltb atlas_size (page.x + width)
    then record { x = 0; y = page.y + page.shelf; shelf = 0 }
    else page

-- The page after a bitmap went to its place.
unfoldable pub advance : ℕ → ℕ → Page → Page
advance width height page = record {
  x = page.x + (width + glyph_padding);
  y = page.y;
  shelf = if ltb page.shelf (height + glyph_padding) then height + glyph_padding else page.shelf;
}

unfoldable pub put_on : ℕ → ℕ → Page → List Page → Option Spot × List Page
put_on width height page rest = (
  some (record { page = length rest; x = page.x; y = page.y; width = width; height = height }),
  advance width height page ∷ rest,
)

unfoldable pub put_on_new : ℕ → ℕ → List Page → Option Spot × List Page
put_on_new width height pages =
    if length pages == atlas_pages_max then (none, pages) else put_on width height blank pages

unfoldable pub place : ℕ → ℕ → List Page → Option Spot × List Page
place width height [] = put_on_new width height []
place width height (page ∷ rest) =
    let broken = break_shelf width page in
    if ltb atlas_size (broken.y + height)
    then put_on_new width height (broken ∷ rest)
    else put_on width height broken rest

abbrev pub add_spot : Option Spot → List Spot → List Spot
add_spot none spots = spots
add_spot (some spot) spots = spot ∷ spots

-- The calls of place for bitmaps of these sizes, one after the other, with all their spots.
unfoldable pub place_all : List (ℕ × ℕ) → List Page × List Spot → List Page × List Spot
place_all [] atlas = atlas
place_all ((width, height) ∷ sizes) (pages, spots) =
    let (spot, next) = place width height pages in place_all sizes (next, add_spot spot spots)
