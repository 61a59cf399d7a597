-- ===== src/Cache/Interleaving.antt =====
-- What holds whatever the order in which threads add pictures (src/PictureCache.cpp).
use beast_examples.Common.{
  ℕ, ◌≡◌, refl, sym, ◌∙◌, ◌⊎◌, inl, inr, Bool, true, false, if◌then◌else◌, nat_eqb, nat_eqb_iff,
  List, [], ◌∷◌, is_empty, arith, nat_eq, Bool-cases, Result, ok, throw, out_of_range, codes,
}
use beast_examples.Picture.{Wrapper}
use beast_examples.Preview.Defs.{PictureView, Previews}
use beast_examples.Cache.{Cache, new_cache, cleanup, store, process, processed, made, add_picture}
use beast_examples.Cache.Cleanup.{Inv, cleanup-Inv}
use beast_examples.Cache.Adding.{store-Inv, store_refused}
use beast_examples.Cache.Trying.{is_complete}
use beast_examples.Cache.Complete.{has_place, store-has_place, process-not_complete}
use beast_examples.Cache.Monotone.{is_complete-cleanup, is_complete-emplace}
use beast_examples.Cache.Threads.{
  Phase, calling, cleaned, stored, posting, returned, Shared, after_store, after_process, advance,
  System, update, Step, run, call_again, begin, Reach, start, later,
}

-- What `addPicture` answers for a picture.
abbrev pub answer : Wrapper → Result (Unit {0})
answer w = if has_place w then ok tt else throw (out_of_range (codes "at"))

-- A call that has stored its picture, or returned, has done so by the place of its picture.
abbrev pub IsFair : Phase → Type 0
IsFair (stored w) = has_place w ≡ true
IsFair (posting w views) = has_place w ≡ true
IsFair (returned w r) = r ≡ answer w
IsFair _ = Unit

abbrev pub is_stored : Phase → Bool
is_stored (stored w) = true
is_stored _ = false

-- The maps are well-formed; a complete object waits for a thread that is between storing a picture
-- and `process`; and every call has been treated by the place of its picture.
pub record Safe (s : System) : Type 0 where
  pub maps : Inv s.shared.cache
  pub awaited :
      (id : ℕ) → is_complete id s.shared.cache ≡ true → (i : ℕ) × (is_stored (s.phase i) ≡ true)
  pub fair : (i : ℕ) → IsFair (s.phase i)

-- The same of one step of a thread: `p` is its phase before, `q` after it.
record Advanced (c : Cache) (p : Phase) (q : Phase) (d : Cache) : Type 0 where
  maps : Inv d
  complete :
      (id : ℕ)
      → is_complete id d ≡ true
      → (is_stored q ≡ true) ⊎ ((is_stored p ≡ false) × (is_complete id c ≡ true))
  fair : IsFair q

store-Advanced :
    (w : Wrapper) (s : Shared)
    → Inv s.cache
    → let (q, t) = after_store w s (store w s.cache) in Advanced s.cache (cleaned w) q t.cache
store-Advanced w s v = elim (Bool-cases (has_place w)) [
  | inl fits ↦
      rw (store-has_place w s.cache v, fits, after_store)
        (record { maps = store-Inv w s.cache v; complete = λ id h. inl refl; fair = fits })
  | inr misfit ↦
      let refused = store_refused w s.cache v (ground (arith, misfit)) (ground (arith, misfit)) in
      rw (refused, after_store)
        (record {
          maps = store-Inv w s.cache v;
          complete = λ id h.
              inr (
                refl,
                sym (is_complete-emplace w.picture.object_id id s.cache) ∙ (rw refused at h),
              );
          fair = rw misfit;
        })
]

process-Advanced :
    (w : Wrapper) (s : Shared)
    → Inv s.cache
    → has_place w ≡ true
    → let (q, t) = after_process w s (process s.cache) in Advanced s.cache (stored w) q t.cache
process-Advanced w s v fits =
    let (t, views, e, inv, idle) = process-not_complete s.cache v in
    elim (Bool-cases (is_empty views)) [
      | inl none_left ↦
          rw (e, after_process, none_left)
            (record { maps = inv; complete = λ id h. absurd (cc (idle id, h)); fair = rw fits })
      | inr some_left ↦
          rw (e, after_process, some_left)
            (record { maps = inv; complete = λ id h. absurd (cc (idle id, h)); fair = fits })
    ]

advance-Advanced :
    (now : ℕ) (create : List PictureView → Previews → Previews) (p : Phase) (s : Shared)
    → Inv s.cache
    → IsFair p
    → let (q, t) = advance now create p s in Advanced s.cache p q t.cache
unfolding advance
advance-Advanced now create (calling w) s v f = record {
  maps = (cleanup-Inv now s.cache v).0;
  complete = λ id h. inr (refl, is_complete-cleanup now id s.cache v h);
  fair = tt;
}
advance-Advanced now create (cleaned w) s v f = store-Advanced w s v
advance-Advanced now create (stored w) s v f = process-Advanced w s v f
advance-Advanced now create (posting w views) s v f = record {
  maps = v;
  complete = λ id h. inr (refl, h);
  fair = rw f;
}
advance-Advanced now create (returned w r) s v f = record {
  maps = v;
  complete = λ id h. inr (refl, h);
  fair = f;
}

update_self : (f : ℕ → Phase) (i : ℕ) (p : Phase) → update f i p i ≡ p
update_self f i p = ground arith

update_other : (f : ℕ → Phase) (i j : ℕ) (p : Phase) → nat_eqb i j ≡ false → update f i p j ≡ f j
update_other f i j p other = rw other

IsFair-update :
    (f : ℕ → Phase) (i : ℕ) (p : Phase)
    → IsFair p
    → ((j : ℕ) → IsFair (f j))
    → (j : ℕ) → IsFair (update f i p j)
IsFair-update f i p here there j = elim (Bool-cases (nat_eqb i j)) [
  | inl same ↦ rw same here
  | inr other ↦ rw other (there j)
]

-- A thread that has stored its picture is another one than one that has not.
still_stored :
    (f : ℕ → Phase) (i j : ℕ) (p : Phase)
    → is_stored (f i) ≡ false
    → is_stored (f j) ≡ true
    → is_stored (update f i p j) ≡ true
still_stored f i j p no_store store = elim (Bool-cases (nat_eqb i j)) [
  | inl same ↦ let e : i ≡ j = (nat_eqb_iff i j).0 same in absurd (cc (e, no_store, store))
  | inr other ↦ rw other store
]

Step-Safe : {s t : System} → Step s t → Safe s → Safe t
Step-Safe {s} (run i now create) v =
    let (q, shared) = advance now create (s.phase i) s.shared in
    let a = advance-Advanced now create (s.phase i) s.shared v.maps (v.fair i) in
    record {
      maps = a.maps;
      awaited = λ id h. elim (a.complete id h) [
        | inl here ↦ (i, rw (update_self s.phase i q) here)
        | inr (no_store, before) ↦
            let (j, waits) = v.awaited id before in (j, still_stored s.phase i j q no_store waits)
      ];
      fair = IsFair-update s.phase i q a.fair v.fair;
    }
Step-Safe {s} (call_again i w x r e) v = record {
  maps = v.maps;
  awaited = λ id h.
      let (j, waits) = v.awaited id h in (j, still_stored s.phase i j (calling w) (rw e) waits);
  fair = IsFair-update s.phase i (calling w) tt v.fair;
}

begin-Safe : (limit : ℕ) (pictures : ℕ → Wrapper) → Safe (begin limit pictures)
unfolding new_cache
begin-Safe limit pictures = record {
  maps = record { body_keys = tt; face_keys = tt; four = λ id lines e. cc };
  awaited = λ id h. cc;
  fair = λ i. tt;
}

-- However the steps of any number of threads that add pictures interleave, the two maps stay
-- well-formed, a complete object is left only while some thread is between storing its picture and
-- `process`, and every call that has returned has failed exactly if its picture has no place.
pub Reach-Safe : {limit : ℕ} {pictures : ℕ → Wrapper} {s : System} → Reach limit pictures s → Safe s
Reach-Safe {limit} {pictures} start = begin-Safe limit pictures
Reach-Safe (later r st) = Step-Safe st (Reach-Safe r)

-- Four steps of one thread, with no other between them.
abbrev pub alone : ℕ → (List PictureView → Previews → Previews) → Phase × Shared → Phase × Shared
alone now create (p, s) = advance now create p s

abbrev alone_four : ℕ → (List PictureView → Previews → Previews) → Phase × Shared → Phase × Shared
alone_four now create x =
    alone now create (alone now create (alone now create (alone now create x)))

module _ (now : ℕ) (create : List PictureView → Previews → Previews) (w : Wrapper) where
  abbrev pub ended : Cache × Previews × Result (Unit {0}) → Phase × Shared
  ended (c, p, r) = (returned w r, record { cache = c; previews = p })

  alone-after_process :
      (s : Shared) (x : Result (Cache × List PictureView))
      → alone now create (after_process w s x) ≡ ended (made create s.cache s.previews x)
  unfolding advance
  alone-after_process s (throw e) = refl
  alone-after_process s (ok (u, [])) = refl
  alone-after_process s (ok (u, v ∷ views)) = refl

  alone-after_store :
      (s : Shared) (c : Cache) (x : Result (Unit {0}))
      → alone now create (alone now create (after_store w s (c, x)))
        ≡ ended (processed create s.previews (c, x))
  unfolding advance
  alone-after_store s c (throw e) = refl
  alone-after_store s c (ok _) = alone-after_process (record s { cache = c }) (process c)

  -- Taken one after the other, with no step of another thread between them, the four steps of a call
  -- are `addPicture`: they leave the same cache and previews, and give the same answer.
  alone_four-add_picture :
      (s : Shared)
      → alone_four now create (calling w, s) ≡ ended (add_picture now create w s.cache s.previews)
  unfolding add_picture advance
  alone_four-add_picture s =
      let stored_now = store w (cleanup now s.cache) in
      alone-after_store (record s { cache = cleanup now s.cache }) stored_now.0 stored_now.1
