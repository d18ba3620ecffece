-- ===== src/Compositor/Boxes.antt =====
-- guest/compositor.c: the boxes that a game and the menu are shown in (centered, fit, place, area,
-- widescreen_width, tv_signal, choose_filter, overlay_box, pass_size).
-- A size is a natural number, and a position an integer.
pub mod Inside
mod Tests
use anyconsole.Base.{
  ℕ, ◌-◌, ◌*◌, ◌/◌, ◌%◌, Bool, true, false, not, ◌&&◌, ◌||◌, ltb, ◌==◌, if◌then◌else◌,
}
use anyconsole.Base.Int.{ℤ, pos, sub_ℕ, ◌+ℤ◌}

pub record Box : Type 0 where
  pub x : ℤ
  pub y : ℤ
  pub width : ℕ
  pub height : ℕ

abbrev pub aspect_width : ℕ
aspect_width = 16

abbrev pub aspect_height : ℕ
aspect_height = 9

abbrev pub min_integer_scale : ℕ
min_integer_scale = 2

abbrev pub tv_lines : ℕ
tv_lines = 720

-- (a - b) / 2, which C rounds towards zero.
abbrev pub half_between : ℕ → ℕ → ℤ
half_between a b = sub_ℕ ((a - b) / 2) ((b - a) / 2)

unfoldable pub widescreen_width : ℕ → ℕ
widescreen_width height = height * aspect_width / aspect_height

unfoldable pub centered : Box → ℕ → ℕ → Box
centered outer width height = record {
  x = outer.x +ℤ half_between outer.width width;
  y = outer.y +ℤ half_between outer.height height;
  width = width;
  height = height;
}

unfoldable pub fit : Box → ℕ → ℕ → Box
fit outer across down =
    if ltb (outer.height * across) (outer.width * down)
    then centered outer (outer.height * across / down) outer.height
    else centered outer outer.width (outer.width * down / across)

-- The whole factor by which a picture grows in a box.
unfoldable pub factor_of : Box → ℕ → ℕ → ℕ
factor_of outer width height =
    let across = outer.width / width in
    let down = outer.height / height in if ltb across down then across else down

unfoldable pub place : Box → ℕ → ℕ → Box
place outer width height =
    let factor = factor_of outer width height in
    if ltb factor min_integer_scale
    then fit outer width height
    else centered outer (width * factor) (height * factor)

abbrev pub at_origin : ℕ → ℕ → Box
at_origin width height = record { x = pos 0; y = pos 0; width = width; height = height }

-- The part of the active output that the canvas takes.
unfoldable pub area : ℕ → ℕ → Box
area width height = fit (at_origin width height) aspect_width aspect_height

unfoldable pub tv_signal : ℕ → ℕ → Box
tv_signal width height =
    let tv = at_origin (widescreen_width tv_lines) tv_lines in
    if ltb tv.width width || ltb tv.height height
    then fit tv width height
    else at_origin width height

pub data Filter : Type 0 where
  nearest : Filter
  linear : Filter
  pixel : Filter

unfoldable pub choose_filter : Bool → Box → ℕ → ℕ → Filter
choose_filter gles target width height =
    if width == 0 || (target.width % width == 0 && target.height % height == 0)
    then Filter.nearest
    else if ltb target.width width || not gles
    then Filter.linear
    else Filter.pixel

-- The edges that the menu's surface is anchored to.
pub record Anchor : Type 0 where
  pub left : Bool
  pub right : Bool
  pub top : Bool
  pub bottom : Bool

-- Along one side: at the near edge, at the far one, or in the middle.
abbrev pub anchored : Bool → Bool → ℕ → ℕ → ℤ
anchored near far outer inner =
    if near && not far
    then pos 0
    else if far && not near
    then sub_ℕ outer inner
    else half_between outer inner

unfoldable pub overlay_box : Anchor → ℕ → ℕ → Box → Box
overlay_box anchor width height screen = record {
  x = screen.x +ℤ anchored anchor.left anchor.right screen.width width;
  y = screen.y +ℤ anchored anchor.top anchor.bottom screen.height height;
  width = width;
  height = height;
}
