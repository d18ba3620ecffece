-- ===== src/Scene/Glyphs/Found.antt =====
-- The search for a glyph ends, at the glyph or at a free slot: find_glyph.
use anyconsole.Base.{
  ℕ, zero, suc, ◌+◌, ◌*◌, ◌%◌, ◌≤◌, ◌<◌, ◌≡◌, refl, sym, ◌∙◌, ap, subst, inl, inr, true, false,
  Option, none, some, leb, arith, Bool-cases,
}
use native.Mathlib.Nat.{mod-lt}
use anyconsole.Base.Loop.{for_below, for_below_inv_bounded}
use anyconsole.Base.Counts.{write, one_if, count_below, count-write}
use anyconsole.Scene.Glyphs.{
  Glyph, Slots, Face, is_free, has_id, probe, put_at, move_glyph, grown_capacity, with_slots, grow,
  make_room, at_slot, search, find_glyph,
}
use anyconsole.Scene.Glyphs.Probe.{Stop, probe-Stop, is_used, free-slot}

-- `count` is the number of glyphs in the table.
pub record IsFace (f : Face) : Type 0 where
  pub counted : count_below is_used f.capacity f.slots ≡ f.count

count_below-le : (n : ℕ) (slots : Slots) → count_below is_used n slots ≤ n
count_below-le zero slots = omega arith
count_below-le (suc n) slots =
    let one : one_if (is_used (slots n)) ≤ 1 = ground arith in omega (arith, count_below-le n slots)

-- A table with so many glyphs.
record Holds (capacity n : ℕ) (o : Option Slots) : Type 0 where
  pub slots : Slots
  pub is_table : o ≡ some slots
  pub holds : count_below is_used capacity slots ≡ n

pub used-free : (o : Option Glyph) → is_free o ≡ true → is_used o ≡ false
used-free none e = refl
used-free (some g) e = absurd (ground arith)

put-Holds :
    (capacity n : ℕ) (slots : Slots) (g : Glyph)
    → n < capacity
    → count_below is_used capacity slots ≡ n
    → Holds capacity
        (suc n)
        (put_at slots g (probe is_free slots capacity capacity (g.id % capacity)))
put-Holds capacity n slots g lt holds =
    let (k, below, free) = free-slot capacity slots (omega arith) in
    let stop : Stop is_free slots capacity
        (probe is_free slots capacity capacity (g.id % capacity)) =
      probe-Stop is_free slots capacity (g.id % capacity) k (mod-lt g.id (omega arith)) below
        (ap is_free free) in
    record {
      slots = write slots stop.slot (some g);
      is_table = ap (put_at slots g) stop.is_found;
      holds =
          let written = count-write is_used capacity stop.slot slots (some g) stop.slot_lt in
          let free : one_if (is_used (slots stop.slot)) ≡ 0 =
            ap one_if (used-free (slots stop.slot) stop.is_stop) in
          omega arith;
    }

move_glyph-Holds :
    (capacity n : ℕ) (old : Option Glyph) (o : Option Slots)
    → n < capacity
    → Holds capacity n o
    → Holds capacity (one_if (is_used old) + n) (move_glyph capacity old o)
unfolding move_glyph
move_glyph-Holds capacity n none o lt h =
    subst (λ p. Holds capacity (0 + n) (move_glyph capacity none p)) (sym h.is_table)
      (record { slots = h.slots; is_table = refl; holds = omega (arith, h.holds) })
move_glyph-Holds capacity n (some g) o lt h =
    let one_more : suc n ≡ 1 + n = omega arith in
    subst (λ p. Holds capacity (1 + n) (move_glyph capacity (some g) p)) (sym h.is_table)
      (subst (λ k. Holds capacity k (move_glyph capacity (some g) (some h.slots))) one_more
        (put-Holds capacity n h.slots g lt h.holds))

count_empty : (n : ℕ) → count_below is_used n (λ _. none) ≡ 0
count_empty zero = refl
count_empty (suc n) = omega (arith, count_empty n)

-- The table after growing, and what a search asks of it.
record HasRoom (f : Face) (o : Option Face) : Type 0 where
  pub face : Face
  pub is_face : o ≡ some face
  pub sound : IsFace face
  pub same_count : face.count ≡ f.count
  pub room : face.count < face.capacity

grown-lt : (capacity : ℕ) → (capacity < grown_capacity capacity)
unfolding grown_capacity
grown-lt capacity = ground arith

grow-HasRoom : (f : Face) → IsFace f → HasRoom f (grow f)
unfolding grow
grow-HasRoom f h =
    let capacity = grown_capacity f.capacity in
    let wide : f.capacity < capacity = grown-lt f.capacity in
    let moved : Holds capacity (count_below is_used f.capacity f.slots)
        (for_below f.capacity (λ i o. move_glyph capacity (f.slots i) o) (some λ _. none)) =
      for_below_inv_bounded (λ i o. Holds capacity (count_below is_used i f.slots) o)
        (λ i o. move_glyph capacity (f.slots i) o) f.capacity
        (λ i o lt k.
          move_glyph-Holds capacity (count_below is_used i f.slots) (f.slots i) o
            (omega (arith, count_below-le i f.slots)) k)
        f.capacity (some λ _. none) (omega arith)
        (record { slots = λ _. none; is_table = refl; holds = count_empty capacity }) in
    record {
      face = record { slots = moved.slots; count = f.count; capacity = capacity };
      is_face = ap (with_slots f capacity) moved.is_table;
      sound = record { counted = moved.holds ∙ h.counted };
      same_count = refl;
      room = omega (arith, count_below-le f.capacity f.slots, h.counted);
    }

make_room-HasRoom : (f : Face) → IsFace f → HasRoom f (make_room f)
unfolding make_room
make_room-HasRoom f h = elim (Bool-cases (leb f.capacity (f.count * 2))) [
  | inl e ↦ rw e (grow-HasRoom f h)
  | inr e ↦
      rw e (record { face = f; is_face = refl; sound = h; same_count = refl; room = ground arith })
]

-- Where a glyph is, or is to go, in the table that has grown if it had to.
pub record Found (id : ℕ) (f : Face) (o : Option (ℕ × Face)) : Type 0 where
  pub slot : ℕ
  pub face : Face
  pub is_found : o ≡ some (slot, face)
  pub sound : IsFace face
  pub same_count : face.count ≡ f.count
  pub room : face.count < face.capacity
  pub slot_lt : slot < face.capacity
  pub is_slot : has_id id (face.slots slot) ≡ true

-- The search for a glyph ends in every table whose count is right: in a slot of the table that is free
-- or has the glyph's id, with a count that is still right, the same as before, and below the capacity.
pub find_glyph-Found : (id : ℕ) (f : Face) → IsFace f → Found id f (find_glyph id f)
unfolding find_glyph
find_glyph-Found id f h =
    let room = make_room-HasRoom f h in
    let g = room.face in
    let (k, below, free) =
      free-slot g.capacity g.slots (omega (arith, room.sound.counted, room.room)) in
    let stop : Stop (has_id id) g.slots g.capacity
        (probe (has_id id) g.slots g.capacity g.capacity (id % g.capacity)) =
      probe-Stop (has_id id) g.slots g.capacity (id % g.capacity) k (mod-lt id (omega arith)) below
        (ap (has_id id) free) in
    record {
      slot = stop.slot;
      face = g;
      is_found = ap (search id) room.is_face ∙ ap (at_slot g) stop.is_found;
      sound = room.sound;
      same_count = room.same_count;
      room = room.room;
      slot_lt = stop.slot_lt;
      is_slot = stop.is_stop;
    }
