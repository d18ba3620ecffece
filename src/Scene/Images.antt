-- ===== src/Scene/Images.antt =====
-- guest/scene.c: the cache of images (find_image, least_recently_drawn, image_entry, scene_image,
-- release_image, node_image) and the jobs of the decoder (request_decode, take_path, decode_requests,
-- upload_decoded). An entry that is not in use has the key "". cairo decodes a picture and OpenGL has the
-- texture: a job says whether its picture could be decoded, an image whether it has a texture. snprintf
-- writes the key of a picture that is blurred: `none` is one that is too long. Any other key
-- fits its array.
pub mod Nodes
pub mod Counted
pub mod Owned
pub mod Decoding
pub mod Drawing
mod Tests
use Prim.Native.String.{String}
use text.Mathlib.Text.{◌==◌ as str_eq}
use anyconsole.Base.{
  ℕ, zero, suc, ◌+◌, ◌-◌, Bool, true, false, not, ◌&&◌, ◌||◌, Option, none, some, List, [], ◌∷◌,
  ◌++◌, ltb, ◌==◌, if◌then◌else◌,
}
use anyconsole.Base.Loop.{for_below}
use anyconsole.Base.Counts.{write}

-- struct image. `surface` is the picture that the overlay gives an image by its name: whether there is
-- one, and whether it is sound.
pub record Image : Type 0 where
  pub key : String
  pub has_texture : Bool
  pub users : ℕ
  pub named : Bool
  pub loaded : Bool
  pub pending : Bool
  pub mtime : ℕ
  pub drawn : ℕ
  pub surface : Option Bool

-- struct decode. A blur of 0 is none.
pub record Job : Type 0 where
  pub image : ℕ
  pub path : String
  pub blur : ℕ
  pub mtime : ℕ
  pub is_picture : Bool

-- images[], the image of each node, the jobs that wait, those that the decoder's thread has taken, and
-- those that are done. `batch` is [] while the thread waits.
pub record Images : Type 0 where
  pub table : ℕ → Image
  pub of_node : ℕ → Option ℕ
  pub requested : List Job
  pub batch : List Job
  pub decoded : List Job
  pub loads_left : ℕ
  pub frame : ℕ
  pub moving : Bool

-- The first of `n` images from `i` on that has the key.
unfoldable pub find_from : String → (ℕ → Image) → ℕ → ℕ → Option ℕ
find_from key table zero i = none
find_from key table (suc n) i =
    let later = find_from key table n (suc i) in if str_eq (table i).key key then some i else later

abbrev pub images_max : ℕ
images_max = 1280

unfoldable pub find_image : String → (ℕ → Image) → Option ℕ
find_image key table = find_from key table images_max 0

abbrev pub is_older : (ℕ → Image) → ℕ → Option ℕ → Bool
is_older table i none = true
is_older table i (some oldest) = ltb (table i).drawn (table oldest).drawn

unfoldable pub is_idle : Image → Bool
is_idle image = image.users == 0 && not image.pending

unfoldable pub least_recently_drawn : (ℕ → Image) → Option ℕ
least_recently_drawn table =
    for_below images_max
      (λ i oldest. if is_idle (table i) && is_older table i oldest then some i else oldest) none

abbrev pub new_image : String → Image
new_image key = record {
  key = key;
  has_texture = false;
  users = 0;
  named = false;
  loaded = false;
  pending = false;
  mtime = 0;
  drawn = 0;
  surface = none;
}

abbrev pub evict : String → (ℕ → Image) → Option ℕ → Option ℕ × (ℕ → Image)
evict key table none = (none, table)
evict key table (some i) = (some i, write table i (new_image key))

abbrev pub entry_of : String → (ℕ → Image) → Option ℕ → Option ℕ × (ℕ → Image)
entry_of key table none = evict key table (least_recently_drawn table)
entry_of key table (some i) = (some i, table)

-- The image of a key, or the idle one that was drawn longest ago, which loses what it was.
unfoldable pub image_entry : String → (ℕ → Image) → Option ℕ × (ℕ → Image)
image_entry key table = entry_of key table (find_image key table)

abbrev pub given : Bool → Image → Image
given picture image = record image {
  surface = some picture;
  named = true;
  loaded = false;
  users = if image.users == 0 then 1 else image.users;
}

abbrev pub give : Bool → Images → Option ℕ × (ℕ → Image) → Images
give picture s (none, table) = record s { table = table }
give picture s (some i, table) = record s { table = write table i (given picture (table i)) }

unfoldable pub scene_image : String → Bool → Images → Images
scene_image name picture s = give picture s (image_entry name s.table)

abbrev pub set_users : ℕ → ℕ → (ℕ → Image) → ℕ → Image
set_users i n table = write table i (record (table i) { users = n })

abbrev pub release_of : Option ℕ → ℕ → Images → Images
release_of none node s = s
release_of (some i) node s = record s {
  table = set_users i ((s.table i).users - 1) s.table;
  of_node = write s.of_node node none;
}

unfoldable pub release_image : ℕ → Images → Images
release_image node s = release_of (s.of_node node) node s

-- Each job with the path goes from the requests to a list of its own, the last one first.
unfoldable pub take_path : String → List Job → List Job → List Job × List Job
take_path path [] taken = (taken, [])
take_path path (job ∷ rest) taken =
    let (all, left) = take_path path rest (if str_eq job.path path then job ∷ taken else taken) in
    (all, if str_eq job.path path then left else job ∷ left)

abbrev pub take_first : Images → List Job → Images
take_first s [] = s
take_first s (job ∷ rest) =
    let (batch, left) = take_path job.path (job ∷ rest) [] in
    record s { batch = batch; requested = left }

-- The decoder's thread, with the lock: it takes a batch if there is a request.
unfoldable pub start_batch : Images → Images
start_batch s = elim s.batch [ [] ↦ take_first s s.requested | job ∷ rest ↦ s ]

unfoldable pub give_picture : Bool → List Job → List Job
give_picture picture [] = []
give_picture picture (job ∷ rest) = record job { is_picture = picture } ∷ give_picture picture rest

-- It has decoded the batch, and with the lock puts it before what is done.
unfoldable pub finish_batch : Bool → Images → Images
finish_batch picture s = record s {
  batch = [];
  decoded = give_picture picture s.batch ++ s.decoded;
}

abbrev pub set_pending : Image → Image
set_pending image = record image { pending = true }

unfoldable pub request_decode : ℕ → String → ℕ → ℕ → Images → Images
request_decode i path blur mtime s = record s {
  table = write s.table i (set_pending (s.table i));
  requested =
      record { image = i; path = path; blur = blur; mtime = mtime; is_picture = false }
      ∷ s.requested;
}

abbrev pub uploaded : Job → Image → Image
uploaded job image = record image {
  has_texture = image.has_texture || job.is_picture;
  mtime = job.mtime;
  loaded = true;
  pending = false;
}

-- The rounds of upload_decoded; the one after the last looks whether there is more.
unfoldable pub upload_rounds : ℕ → List Job → Images → Images
upload_rounds zero [] s = record s { loads_left = 0; decoded = [] }
upload_rounds zero (job ∷ rest) s = record s { loads_left = 0; decoded = job ∷ rest; moving = true }
upload_rounds (suc n) [] s = record s { loads_left = suc n; decoded = [] }
upload_rounds (suc n) (job ∷ rest) s =
    upload_rounds n rest
      (record s { table = write s.table job.image (uploaded job (s.table job.image)) })

unfoldable pub upload_decoded : Images → Images
upload_decoded s = upload_rounds s.loads_left s.decoded s
