-- ===== src/Cache/Creating.antt =====
-- What a call of `addPicture` makes of the pictures of the cache (src/PictureCache.cpp).
use beast_examples.Common.{
  ap, sym, ◌∙◌, ℕ, ◌*◌, ◌≡◌, refl, true, if◌then◌else◌, List, length, is_empty, ok, nat_eq,
}
use beast_examples.Picture.{Wrapper}
use beast_examples.Preview.Defs.{PictureView, Previews}
use beast_examples.Cache.{Cache, store, cleanup, made, processed, add_picture}
use beast_examples.Cache.Cleanup.{Inv, cleanup-Inv}
use beast_examples.Cache.Adding.{store-Inv}
use beast_examples.Cache.Complete.{has_place, store-has_place}
use beast_examples.Cache.Posting.{visited, from_complete, erase_all, all_posts, process-erase_all}
use beast_examples.Cache.Views.{all_views, process-all_views}

-- A call of `addPicture` with a picture that has a place does this: what has expired goes, the picture
-- is stored, and of the cache as it is then, the first complete object that is visited is erased with
-- all that are visited after it. For each long line of each complete object eleven views are taken, in
-- the order of the visits and of the lines: of the object's face, of the first body picture of each of
-- the four cameras, and of the first six pictures of the line. If there are any, one preview is made
-- of all of them; else the previews stay as they were.
pub add_picture-create :
    (now : ℕ) (create : List PictureView → Previews → Previews) (w : Wrapper) (s : Cache)
    (p : Previews)
    → Inv s
    → has_place w ≡ true
    → let t = (store w (cleanup now s)).0 in
      let views = all_views (visited t) t in
      (add_picture now create w s p ≡ (
        erase_all (from_complete t (visited t)) t,
        if is_empty views then p else create views p,
        ok tt,
      ))
      × (length views ≡ 11 * all_posts t (visited t))
unfolding add_picture
add_picture-create now create w s p v place =
    let c = (cleanup-Inv now s v).0 in
    let t = (store w (cleanup now s)).0 in
    let inv = store-Inv w (cleanup now s) c in
    let (views, e, n) = process-erase_all t inv in
    let same : views ≡ all_views (visited t) t = process-all_views t _ views inv e in
    let stored : (store w (cleanup now s)).1 ≡ ok tt =
      rw (store-has_place w (cleanup now s) c, place) refl in
    (rw (stored, processed, e, made, same), ap length (sym same) ∙ n)
