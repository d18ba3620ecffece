-- ===== src/Scene/Images/Drawing.antt =====
-- Whatever is drawn, given, freed, decoded and uploaded, in whatever order, every job stays a job for
-- its image: node_image, and the steps of the two threads.
use Prim.Native.String.{String}
use text.Mathlib.TextEquality.{eq_iff}
use anyconsole.Base.{
  ℕ, ◌≡◌, refl, sym, ◌∙◌, ap, subst, true, Option, none, some, List, [], ◌∷◌, ◌==◌, arith, if_both,
}
use mathlib.Core.Option.{some-injective, some-ne-none}
use anyconsole.Base.Counts.{write}
use anyconsole.Scene.Images.{Image, Images, new_image, release_image}
use anyconsole.Scene.Images.Nodes.{
  Look, key_of, has_key, attach_entry, attach, set_image, draw_named, draw_file, refreshed,
  draw_stat, drawn_at, draw_image, draw_attached, draw_key, draw_path, draw_source, node_image,
  Event, step, run,
}
use anyconsole.Scene.Images.Owned.{Entry, image_entry-Entry, IsOwned, keep-Owns, entry-Owns}
use anyconsole.Scene.Images.Decoding.{
  scene_image-IsOwned, release_image-IsOwned, request_decode-IsOwned, start_batch-IsOwned,
  finish_batch-IsOwned, upload_decoded-IsOwned,
}

key-set_image :
    (i : ℕ) (v : Image) (s : Images)
    → v.key ≡ (s.table i).key
    → ((set_image i v s).table i).key ≡ (s.table i).key
key-set_image i v s e = let own : (i == i) ≡ true = ground arith in rw own e

key-write :
    (table : ℕ → Image) (i k : ℕ) (v : Image) {key : String}
    → v.key ≡ key
    → k ≡ i
    → (write table i v k).key ≡ key
key-write table i k v e f = let own : (i == k) ≡ true = ground arith in rw own e

write-node : (of : ℕ → Option ℕ) (node : ℕ) (image : Option ℕ) → write of node image node ≡ image
write-node of node image = let own : (node == node) ≡ true = ground arith in rw own refl

has_key-key :
    (table : ℕ → Image) (key : String) (image : Option ℕ) (k : ℕ)
    → has_key table key image ≡ true
    → image ≡ some k
    → (table k).key ≡ key
has_key-key table key image k h e =
    (eq_iff (table k).key key).0 (subst (λ o. has_key table key o ≡ true) e h)

module _ (baked : String → ℕ → Option String) where
  -- The key of an image is what its path and blur make.
  abbrev Keyed : Images → ℕ → String → ℕ → Type 0
  Keyed s i path blur = key_of baked path blur ≡ some (s.table i).key

  draw_file-IsOwned :
      (i : ℕ) (path : String) (blur mtime : ℕ) (s : Images)
      → Keyed s i path blur
      → IsOwned baked s
      → IsOwned baked (draw_file i path blur mtime s).1
  unfolding draw_file
  draw_file-IsOwned i path blur mtime s e h =
      if_both (IsOwned baked) (s.table i).pending (λ p. h)
        λ p. request_decode-IsOwned i path blur mtime s p e h

  draw_stat-IsOwned :
      (i : ℕ) (path : String) (blur : ℕ) (time : Option ℕ) (s : Images)
      → Keyed s i path blur
      → IsOwned baked s
      → IsOwned baked (draw_stat i path blur time s).1
  draw_stat-IsOwned i path blur none s e h = h
  draw_stat-IsOwned i path blur (some mtime) s e h =
      let v = refreshed mtime (s.table i) in
      let k : IsOwned baked (set_image i v s) = keep-Owns h i v refl refl in
      if_both (λ (r : Option ℕ × Images). IsOwned baked r.1) ((set_image i v s).table i).loaded
        (λ f. k)
        λ f.
          draw_file-IsOwned i path blur mtime (set_image i v s)
            (e ∙ ap some (sym (key-set_image i v s refl))) k

  draw_named-IsOwned : (i : ℕ) (s : Images) → IsOwned baked s → IsOwned baked (draw_named i s).1
  unfolding draw_named
  draw_named-IsOwned i s h =
      if_both (λ (r : Option ℕ × Images). IsOwned baked r.1) (s.loads_left == 0) (λ f. h)
        (λ f. keep-Owns h i _ refl refl)

  draw_image-IsOwned :
      (w : Look) (path : String) (blur i : ℕ) (s : Images)
      → Keyed s i path blur
      → IsOwned baked s
      → IsOwned baked (draw_image w path blur i s).1
  unfolding draw_image
  draw_image-IsOwned w path blur i s e h =
      let v = drawn_at s.frame (s.table i) in
      let t = set_image i v s in
      let k : IsOwned baked t = keep-Owns h i v refl refl in
      if_both (λ (r : Option ℕ × Images). IsOwned baked r.1) (t.table i).named
        (λ f.
          if_both (λ (r : Option ℕ × Images). IsOwned baked r.1) (t.table i).loaded (λ g. k)
            (λ g. draw_named-IsOwned i t k))
        λ f.
          draw_stat-IsOwned i path blur (w.mtime_of path) t
            (e ∙ ap some (sym (key-set_image i v s refl))) k

  -- The node has an image of the key, or none.
  record IsAttached (key : String) (node : ℕ) (s : Images) : Type 0 where
    owned : IsOwned baked s
    keyed : (i : ℕ) → s.of_node node ≡ some i → (s.table i).key ≡ key

  attach_entry-IsAttached :
      (key : String) (node : ℕ) (s : Images) (r : Option ℕ × (ℕ → Image))
      → Entry key s.table r
      → IsOwned baked s
      → IsAttached key node (attach_entry node s r)
  attach_entry-IsAttached key node s r (Entry.found i e) h = record {
    owned = keep-Owns h i _ refl refl;
    keyed = λ k f.
        key-write s.table i k _ e (some-injective _ _ (sym f ∙ write-node s.of_node node (some i)));
  }
  attach_entry-IsAttached key node s r Entry.full h = record {
    owned = h;
    keyed = λ k f. absurd (some-ne-none _ (sym f ∙ write-node s.of_node node none));
  }
  attach_entry-IsAttached key node s r (Entry.evicted i e) h =
      let own : (i == i) ≡ true = ground arith in
      let gone : Entry key s.table (some i, write s.table i (new_image key)) = Entry.evicted i e in
      record {
        owned = keep-Owns (entry-Owns h gone) i _ refl refl;
        keyed = λ k f.
            key-write (write s.table i (new_image key)) i k _ (rw own refl)
              (some-injective _ _ (sym f ∙ write-node s.of_node node (some i)));
      }

  attach-IsAttached :
      (key : String) (node : ℕ) (s : Images)
      → IsOwned baked s
      → IsAttached key node (attach key node s)
  unfolding attach
  attach-IsAttached key node s h =
      if_both (IsAttached key node) (has_key s.table key (s.of_node node))
        (λ e. record { owned = h; keyed = λ k f. has_key-key s.table key (s.of_node node) k e f })
        λ e.
          attach_entry-IsAttached key node (release_image node s) _
            (image_entry-Entry key (release_image node s).table) (release_image-IsOwned node s h)

  draw_attached-IsOwned :
      (w : Look) (path key : String) (blur : ℕ) (image : Option ℕ) (s : Images)
      → key_of baked path blur ≡ some key
      → ((i : ℕ) → image ≡ some i → (s.table i).key ≡ key)
      → IsOwned baked s
      → IsOwned baked (draw_attached w path blur image s).1
  draw_attached-IsOwned w path key blur none s e k h = h
  draw_attached-IsOwned w path key blur (some i) s e k h =
      draw_image-IsOwned w path blur i s (e ∙ ap some (sym (k i refl))) h

  draw_key-IsOwned :
      (w : Look) (node : ℕ) (path : String) (blur : ℕ) (key : Option String) (s : Images)
      → key_of baked path blur ≡ key
      → IsOwned baked s
      → IsOwned baked (draw_key w node path blur key s).1
  draw_key-IsOwned w node path blur none s e h = h
  draw_key-IsOwned w node path blur (some key) s e h =
      let a = attach-IsAttached key node s h in
      draw_attached-IsOwned w path key blur ((attach key node s).of_node node) (attach key node s) e
        a.keyed a.owned

  draw_path-IsOwned :
      (w : Look) (node blur : ℕ) (path : Option String) (s : Images)
      → IsOwned baked s
      → IsOwned baked (draw_path baked w node blur path s).1
  draw_path-IsOwned w node blur none s h = h
  draw_path-IsOwned w node blur (some path) s h =
      draw_key-IsOwned w node path blur (key_of baked path blur) s refl h

  draw_source-IsOwned :
      (w : Look) (node : ℕ) (source : Option String) (s : Images)
      → IsOwned baked s
      → IsOwned baked (draw_source baked w node source s).1
  draw_source-IsOwned w node none s h = release_image-IsOwned node s h
  draw_source-IsOwned w node (some source) s h = draw_path-IsOwned w node _ _ s h

  step-IsOwned : (e : Event) (s : Images) → IsOwned baked s → IsOwned baked (step baked e s)
  unfolding step node_image
  step-IsOwned (Event.give_image name picture) s h = scene_image-IsOwned name picture s h
  step-IsOwned (Event.draw_node w node) s h = draw_source-IsOwned w node w.source s h
  step-IsOwned (Event.free_node node) s h = release_image-IsOwned node s h
  step-IsOwned Event.upload s h = upload_decoded-IsOwned s h
  step-IsOwned Event.take_batch s h = start_batch-IsOwned s h
  step-IsOwned (Event.batch_done picture) s h = finish_batch-IsOwned picture s h

  -- Through any sequence of what the two threads do, there is exactly one job for each image that is
  -- pending and none for any other, and the image of each job has the key of what the job decodes: what
  -- is uploaded is what its image is for.
  pub run-IsOwned :
      (es : List Event) (s : Images) → IsOwned baked s → IsOwned baked (run baked es s)
  unfolding run
  run-IsOwned [] s h = h
  run-IsOwned (e ∷ es) s h = run-IsOwned es (step baked e s) (step-IsOwned e s h)
