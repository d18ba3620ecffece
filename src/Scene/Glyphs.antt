-- ===== src/Scene/Glyphs.antt =====
-- guest/scene.c: the hash table of a face's glyphs (find_glyph, glyph). A slot is none where its `page`
-- is 0, and a glyph has no spot where it is -1. FreeType renders a glyph: `Rendered` is what it gives.
-- A search that finds no end is `none`; a theorem shows that there is none.
pub mod Probe
pub mod Found
pub mod Kept
mod Tests
use anyconsole.Base.{
  ℕ, zero, suc, ◌+◌, ◌*◌, ◌%◌, Bool, true, false, not, ◌||◌, Option, none, some, List, [], ◌∷◌,
  ◌==◌, ltb, leb, if◌then◌else◌,
}
use anyconsole.Base.Int.{ℤ, pos}
use anyconsole.Base.Loop.{for_below}
use anyconsole.Base.Counts.{write}
use anyconsole.Scene.Atlas.{Page, Spot, place}

pub record Glyph : Type 0 where
  pub id : ℕ
  pub spot : Option Spot
  pub left : ℤ
  pub top : ℤ

abbrev pub Slots : Type 0
Slots = ℕ → Option Glyph

pub record Face : Type 0 where
  pub slots : Slots
  pub count : ℕ
  pub capacity : ℕ

abbrev pub is_free : Option Glyph → Bool
is_free none = true
is_free (some g) = false

abbrev pub has_id : ℕ → Option Glyph → Bool
has_id id none = true
has_id id (some g) = g.id == id

-- The slot where a search stops, which goes around the table. `fuel` bounds its steps.
unfoldable pub probe : (Option Glyph → Bool) → Slots → ℕ → ℕ → ℕ → Option ℕ
probe stops slots capacity zero slot = none
probe stops slots capacity (suc fuel) slot =
    let next = probe stops slots capacity fuel (suc slot % capacity) in
    if stops (slots slot) then some slot else next

abbrev pub put_at : Slots → Glyph → Option ℕ → Option Slots
put_at slots g none = none
put_at slots g (some slot) = some (write slots slot (some g))

-- A glyph of the smaller table goes to the first free slot from its own on.
unfoldable pub move_glyph : ℕ → Option Glyph → Option Slots → Option Slots
move_glyph capacity old none = none
move_glyph capacity none (some slots) = some slots
move_glyph capacity (some g) (some slots) =
    put_at slots g (probe is_free slots capacity capacity (g.id % capacity))

abbrev pub first_capacity : ℕ
first_capacity = 256

unfoldable pub grown_capacity : ℕ → ℕ
grown_capacity capacity = if capacity == 0 then first_capacity else capacity * 2

abbrev pub with_slots : Face → ℕ → Option Slots → Option Face
with_slots f capacity none = none
with_slots f capacity (some slots) =
    some (record { slots = slots; count = f.count; capacity = capacity })

unfoldable pub grow : Face → Option Face
grow f =
    let capacity = grown_capacity f.capacity in
    with_slots f capacity
      (for_below f.capacity (λ i slots. move_glyph capacity (f.slots i) slots) (some λ _. none))

-- A table that is half full grows first.
unfoldable pub make_room : Face → Option Face
make_room f = if leb f.capacity (f.count * 2) then grow f else some f

abbrev pub at_slot : Face → Option ℕ → Option (ℕ × Face)
at_slot f none = none
at_slot f (some slot) = some (slot, f)

abbrev pub search : ℕ → Option Face → Option (ℕ × Face)
search id none = none
search id (some f) = at_slot f (probe (has_id id) f.slots f.capacity f.capacity (id % f.capacity))

-- The slot of a glyph, or the free one for it, with the table.
unfoldable pub find_glyph : ℕ → Face → Option (ℕ × Face)
find_glyph id f = search id (make_room f)

-- The bitmap of a glyph: its size, and where it lies to the pen.
pub record Rendered : Type 0 where
  pub width : ℕ
  pub height : ℕ
  pub left : ℤ
  pub top : ℤ

-- The face and the pages of the atlas, with the slot of the glyph that was asked for.
pub record Drawn : Type 0 where
  pub slot : ℕ
  pub face : Face
  pub pages : List Page

abbrev pub no_bitmap : ℕ → Glyph
no_bitmap id = record { id = id; spot = none; left = pos 0; top = pos 0 }

abbrev pub placed_at : ℕ → Rendered → Option Spot → Glyph
placed_at id r none = no_bitmap id
placed_at id r (some spot) = record { id = id; spot = some spot; left = r.left; top = r.top }

-- The entry of a new glyph, with the pages. An empty bitmap takes no place.
unfoldable pub draw : ℕ → Option Rendered → List Page → Glyph × List Page
draw id none pages = (no_bitmap id, pages)
draw id (some r) pages =
    let (spot, after) = place r.width r.height pages in
    if r.width == 0 || r.height == 0 then (no_bitmap id, pages) else (placed_at id r spot, after)

unfoldable pub add_glyph : ℕ → Option Rendered → List Page → ℕ → Face → Drawn
add_glyph id rendered pages slot f =
    let (entry, after) = draw id rendered pages in
    record {
      slot = slot;
      face = record f { slots = write f.slots slot (some entry); count = suc f.count };
      pages = after;
    }

unfoldable pub glyph_at : ℕ → Option Rendered → List Page → Option (ℕ × Face) → Option Drawn
glyph_at id rendered pages none = none
glyph_at id rendered pages (some (slot, f)) = some (
    if is_free (f.slots slot)
    then add_glyph id rendered pages slot f
    else record { slot = slot; face = f; pages = pages })

unfoldable pub glyph : ℕ → Option Rendered → Face × List Page → Option Drawn
glyph id rendered (f, pages) = glyph_at id rendered pages (find_glyph id f)
