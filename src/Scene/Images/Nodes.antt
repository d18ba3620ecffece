-- ===== src/Scene/Images/Nodes.antt =====
-- guest/scene.c: the image that a node draws (node_image), and the steps that change the images.
use Prim.Native.String.{String}
use text.Mathlib.Text.{◌==◌ as str_eq}
use anyconsole.Base.{
  ℕ, zero, suc, ◌+◌, ◌-◌, Bool, true, false, not, ◌&&◌, ◌||◌, Option, none, some, List, [], ◌∷◌,
  ltb, ◌==◌, if◌then◌else◌,
}
use anyconsole.Base.Counts.{write}
use anyconsole.Scene.Images.{
  Image, Images, find_image, image_entry, release_image, request_decode, set_users, scene_image,
  start_batch, finish_batch, upload_decoded,
}

-- What a node is to draw, where the skin finds it, and the time of a file.
pub record Look : Type 0 where
  pub source : Option String
  pub blur : ℕ
  pub resolve : String → Option String
  pub mtime_of : String → Option ℕ

abbrev pub is_named : (ℕ → Image) → Option ℕ → Bool
is_named table none = false
is_named table (some i) = (table i).named

unfoldable pub registered : String → (ℕ → Image) → Bool
registered source table = is_named table (find_image source table)

abbrev pub is_baking : Look → Bool → Bool
is_baking w known = ltb 0 w.blur && not known

-- A blur of 0 stands for a picture as it is.
abbrev pub key_of : (String → ℕ → Option String) → String → ℕ → Option String
key_of baked path zero = some path
key_of baked path (suc n) = baked path (suc n)

abbrev pub has_key : (ℕ → Image) → String → Option ℕ → Bool
has_key table key none = false
has_key table key (some i) = str_eq (table i).key key

abbrev pub attach_entry : ℕ → Images → Option ℕ × (ℕ → Image) → Images
attach_entry node s (none, table) = record s { table = table; of_node = write s.of_node node none }
attach_entry node s (some i, table) = record s {
  table = set_users i ((table i).users + 1) table;
  of_node = write s.of_node node (some i);
}

-- A node that has no image, or that of another key, gets the image of the key.
unfoldable pub attach : String → ℕ → Images → Images
attach key node s =
    let released = release_image node s in
    if has_key s.table key (s.of_node node)
    then s
    else attach_entry node released (image_entry key released.table)

abbrev pub set_image : ℕ → Image → Images → Images
set_image i image s = record s { table = write s.table i image }

abbrev pub texture_of : ℕ → Images → Option ℕ × Images
texture_of i s = (if (s.table i).has_texture then some i else none, s)

abbrev pub is_sound : Option Bool → Bool
is_sound none = false
is_sound (some sound) = sound

-- The picture of an image that has a name is at hand; a frame uploads only so many.
unfoldable pub draw_named : ℕ → Images → Option ℕ × Images
draw_named i s =
    let image = s.table i in
    if s.loads_left == 0
    then texture_of i (record s { moving = true })
    else texture_of i (
        set_image i
          (record image {
            loaded = true;
            has_texture = image.has_texture || is_sound image.surface;
            surface = none;
          })
          (record s { loads_left = s.loads_left - 1 }))

unfoldable pub draw_file : ℕ → String → ℕ → ℕ → Images → Option ℕ × Images
draw_file i path blur mtime s =
    texture_of i (if (s.table i).pending then s else request_decode i path blur mtime s)

abbrev pub refreshed : ℕ → Image → Image
refreshed mtime image = record image {
  loaded = if not (mtime == image.mtime) then false else image.loaded;
}

abbrev pub draw_stat : ℕ → String → ℕ → Option ℕ → Images → Option ℕ × Images
draw_stat i path blur none s = (none, s)
draw_stat i path blur (some mtime) s =
    let t = set_image i (refreshed mtime (s.table i)) s in
    if (t.table i).loaded then (some i, t) else draw_file i path blur mtime t

abbrev pub drawn_at : ℕ → Image → Image
drawn_at frame image = record image { drawn = frame }

unfoldable pub draw_image : Look → String → ℕ → ℕ → Images → Option ℕ × Images
draw_image w path blur i s =
    let t = set_image i (drawn_at s.frame (s.table i)) s in
    if (t.table i).named
    then if (t.table i).loaded then (some i, t) else draw_named i t
    else draw_stat i path blur (w.mtime_of path) t

abbrev pub draw_attached : Look → String → ℕ → Option ℕ → Images → Option ℕ × Images
draw_attached w path blur none s = (none, s)
draw_attached w path blur (some i) s = draw_image w path blur i s

abbrev pub draw_key : Look → ℕ → String → ℕ → Option String → Images → Option ℕ × Images
draw_key w node path blur none s = (none, s)
draw_key w node path blur (some key) s =
    let t = attach key node s in draw_attached w path blur (t.of_node node) t

-- `baked` is what snprintf makes of a path and a blur.
module _ (baked : String → ℕ → Option String) where
  abbrev pub draw_path : Look → ℕ → ℕ → Option String → Images → Option ℕ × Images
  draw_path w node blur none s = (none, s)
  draw_path w node blur (some path) s = draw_key w node path blur (key_of baked path blur) s

  abbrev pub draw_source : Look → ℕ → Option String → Images → Option ℕ × Images
  draw_source w node none s = (none, release_image node s)
  draw_source w node (some source) s =
      let known = registered source s.table in
      draw_path w node (if is_baking w known then w.blur else 0)
        (if known then some source else w.resolve source) s

  unfoldable pub node_image : Look → ℕ → Images → Option ℕ × Images
  node_image w node s = draw_source w node w.source s

-- What the two threads do: the overlay gives an image, a node draws or is freed, a frame uploads what is
-- decoded, and the decoder takes a batch and is done with it.
pub data Event : Type 0 where
  give_image : String → Bool → Event
  draw_node : Look → ℕ → Event
  free_node : ℕ → Event
  upload take_batch : Event
  batch_done : Bool → Event

module _ (baked : String → ℕ → Option String) where
  unfoldable pub step : Event → Images → Images
  step (give_image name picture) s = scene_image name picture s
  step (draw_node w node) s = (node_image baked w node s).1
  step (free_node node) s = release_image node s
  step upload s = upload_decoded s
  step take_batch s = start_batch s
  step (batch_done picture) s = finish_batch picture s

  unfoldable pub run : List Event → Images → Images
  run [] s = s
  run (e ∷ es) s = run es (step e s)
