-- ===== src/Scene/Glyphs/Kept.antt =====
-- A glyph that is asked for is in the table: glyph.
use anyconsole.Base.{
  ℕ, ◌<◌, ◌≡◌, refl, sym, ◌∙◌, ap, subst, inl, inr, true, false, ◌||◌, Option, none, some, List,
  ◌==◌, ==_iff, arith, Bool-cases, Option-cases,
}
use anyconsole.Base.Counts.{one_if, count-write}
use anyconsole.Scene.Atlas.{Page, Spot, place}
use anyconsole.Scene.Glyphs.{
  Glyph, Face, Rendered, Drawn, is_free, has_id, placed_at, draw, add_glyph, glyph_at, glyph,
}
use anyconsole.Scene.Glyphs.Probe.{is_used}
use anyconsole.Scene.Glyphs.Found.{IsFace, used-free, find_glyph-Found}

id-placed_at : (id : ℕ) (r : Rendered) (spot : Option Spot) → (placed_at id r spot).id ≡ id
id-placed_at id r none = refl
id-placed_at id r (some spot) = refl

id-draw :
    (id : ℕ) (rendered : Option Rendered) (pages : List Page) → (draw id rendered pages).0.id ≡ id
unfolding draw
id-draw id none pages = refl
id-draw id (some r) pages = elim (Bool-cases (r.width == 0 || r.height == 0)) [
  | inl e ↦ rw e refl
  | inr e ↦ rw e (id-placed_at id r (place r.width r.height pages).0)
]

-- The glyph stands in its slot of a table whose count is right.
pub record IsDrawn (id : ℕ) (o : Option Drawn) : Type 0 where
  pub drawn : Drawn
  pub is_drawn : o ≡ some drawn
  pub sound : IsFace drawn.face
  pub slot_lt : drawn.slot < drawn.face.capacity
  pub entry : Glyph
  pub is_entry : drawn.face.slots drawn.slot ≡ some entry
  pub same_id : entry.id ≡ id

add_glyph-IsDrawn :
    (id : ℕ) (rendered : Option Rendered) (pages : List Page) (slot : ℕ) (f : Face)
    → IsFace f
    → slot < f.capacity
    → is_free (f.slots slot) ≡ true
    → IsDrawn id (some (add_glyph id rendered pages slot f))
unfolding add_glyph
add_glyph-IsDrawn id rendered pages slot f h lt free =
    let own : (slot == slot) ≡ true = ground arith in
    record {
      drawn = add_glyph id rendered pages slot f;
      is_drawn = refl;
      sound = record {
        counted =
            let entry = (draw id rendered pages).0 in
            let written = count-write is_used f.capacity slot f.slots (some entry) lt in
            let empty : one_if (is_used (f.slots slot)) ≡ 0 =
              ap one_if (used-free (f.slots slot) free) in
            omega (arith, written, empty, h.counted);
      };
      slot_lt = lt;
      entry = (draw id rendered pages).0;
      is_entry = rw own refl;
      same_id = id-draw id rendered pages;
    }

old-IsDrawn :
    (id : ℕ) (pages : List Page) (slot : ℕ) (f : Face)
    → IsFace f
    → slot < f.capacity
    → is_free (f.slots slot) ≡ false
    → has_id id (f.slots slot) ≡ true
    → IsDrawn id (some (record { slot = slot; face = f; pages = pages }))
old-IsDrawn id pages slot f h lt used same = elim (Option-cases (f.slots slot)) [
  | inl e ↦ absurd (let free : is_free (f.slots slot) ≡ true = ap is_free e in ground arith)
  | inr (g, e) ↦ record {
    drawn = record { slot = slot; face = f; pages = pages };
    is_drawn = refl;
    sound = h;
    slot_lt = lt;
    entry = g;
    is_entry = e;
    same_id = (==_iff g.id id).0 (sym (ap (has_id id) e) ∙ same);
  }
]

-- A glyph that is asked for, new or not, ends up in a slot of its face's table, whatever FreeType makes
-- of it, and the count of the table stays right.
pub glyph-IsDrawn :
    (id : ℕ) (rendered : Option Rendered) (f : Face) (pages : List Page)
    → IsFace f
    → IsDrawn id (glyph id rendered (f, pages))
unfolding glyph glyph_at
glyph-IsDrawn id rendered f pages h =
    let found = find_glyph-Found id f h in
    subst (λ o. IsDrawn id (glyph_at id rendered pages o)) (sym found.is_found)
      (elim (Bool-cases (is_free (found.face.slots found.slot))) [
        | inl e ↦
            rw e (
              add_glyph-IsDrawn id rendered pages found.slot found.face found.sound found.slot_lt e)
        | inr e ↦
            rw e
              (old-IsDrawn id pages found.slot found.face found.sound found.slot_lt e found.is_slot)
      ])
