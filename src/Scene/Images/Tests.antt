-- ===== src/Scene/Images/Tests.antt =====
-- Examples of the images: an empty cache, of which two nodes draw a file, one of them blurred.
use Prim.Native.String.{String}
use anyconsole.Base.{ℕ, ◌≡◌, refl, true, false, Option, none, some, List, [], ◌∷◌}
use anyconsole.Scene.Images.{Images, new_image, is_idle, image_entry}
use anyconsole.Scene.Images.Nodes.{Look, Event, run}
use anyconsole.Scene.Images.Owned.{IsOwned, image_entry-kept}
use anyconsole.Scene.Images.Drawing.{run-IsOwned}

abbrev look : ℕ → Look
look blur = record {
  source = some "a.png";
  blur = blur;
  resolve = λ path. some path;
  mtime_of = λ path. some 5;
}

abbrev blurred_key : String → ℕ → Option String
blurred_key path blur = some "a.png 2"

abbrev no_images : Images
no_images = record {
  table = λ _. new_image "";
  of_node = λ _. none;
  requested = [];
  batch = [];
  decoded = [];
  loads_left = 2;
  frame = 1;
  moving = false;
}

abbrev drawing : List Event
drawing =
    Event.draw_node (look 0) 1
    ∷ Event.draw_node (look 2) 2
    ∷ Event.take_batch
    ∷ Event.batch_done true
    ∷ Event.upload
    ∷ []

no_images-IsOwned : IsOwned blurred_key no_images
no_images-IsOwned = record {
  counted = λ i. refl;
  requested_for = tt;
  batch_for = tt;
  decoded_for = tt;
}

run-IsOwned_example : IsOwned blurred_key (run blurred_key drawing no_images)
run-IsOwned_example = run-IsOwned blurred_key drawing no_images no_images-IsOwned

image_entry-kept_example :
    ((i : ℕ)
      → (image_entry "b.png" no_images.table).0 ≡ some i
      → ((image_entry "b.png" no_images.table).1 i).key ≡ "b.png")
    × ((j : ℕ)
        → is_idle (no_images.table j) ≡ false
        → (image_entry "b.png" no_images.table).1 j ≡ no_images.table j)
image_entry-kept_example = image_entry-kept "b.png" no_images.table
