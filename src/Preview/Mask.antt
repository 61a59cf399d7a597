-- ===== src/Preview/Mask.antt =====
-- How a new preview sorts its views, and what its mask and its addresses say of them.
use beast_examples.Common.{
  ℕ, zero, suc, ◌+◌, ◌*◌, ◌≤◌, ◌≡◌, refl, ◌∙◌, Bool, List, [], ◌∷◌, ◌++◌, take, drop, Text, arith,
  append_assoc, append-nil, if◌then◌else◌,
}
use Prim.Native.Nat.{bit_or}
use beast_examples.Preview.Defs.{
  PictureView, Pictures, place, new_pictures, snap, has_data, get_snap_mask,
}

place_tracks :
    (i : ℕ) (vs : List PictureView) (ps : Pictures)
    → 5 ≤ i
    → place i vs ps ≡ record ps { tracks = ps.tracks ++ vs }
unfolding place
place_tracks i [] ps h = ground (arith, append-nil ps.tracks)
place_tracks i (v ∷ vs) ps h = ground (
  arith,
  place_tracks (i + 1) vs (record ps { tracks = ps.tracks ++ v ∷ [] }),
  append_assoc ps.tracks (v ∷ []) vs,
)

place_snaps :
    (n i : ℕ) (vs : List PictureView) (ps : Pictures)
    → n + i ≡ 5
    → place i vs ps ≡ record ps { snaps = ps.snaps ++ take n vs; tracks = ps.tracks ++ drop n vs }
unfolding place
place_snaps zero i vs ps h =
    place_tracks i vs ps (omega arith) ∙ ground (arith, append-nil ps.snaps)
place_snaps (suc n) i [] ps h = ground (arith, append-nil ps.snaps, append-nil ps.tracks)
place_snaps (suc n) i (v ∷ vs) ps h = ground (
  arith,
  place_snaps n (i + 1) vs (record ps { snaps = ps.snaps ++ v ∷ [] }),
  append_assoc ps.snaps (v ∷ []) (take n vs),
)

-- The first five views are the snaps of a new preview, the others its tracks, both in order.
pub new_pictures-take-drop :
    (uuid : Text) (now : ℕ) (vs : List PictureView)
    → new_pictures uuid now vs
      ≡ record { uuid = uuid; timestamp = now; snaps = take 5 vs; tracks = drop 5 vs }
unfolding new_pictures
new_pictures-take-drop uuid now vs = place_snaps 5 0 vs _ refl

abbrev pub bit : Bool → ℕ
bit b = if b then 1 else 0

table : (b0 b1 b2 b3 b4 : Bool) → ℕ
table b0 b1 b2 b3 b4 =
    let m0 : ℕ = if b0 then bit_or 0 1 else 0 in
    let m1 : ℕ = if b1 then bit_or m0 2 else m0 in
    let m2 : ℕ = if b2 then bit_or m1 4 else m1 in
    let m3 : ℕ = if b3 then bit_or m2 8 else m2 in if b4 then bit_or m3 16 else m3

table_lem :
    (b0 b1 b2 b3 b4 : Bool)
    → table b0 b1 b2 b3 b4 ≡ bit b0 + 2 * bit b1 + 4 * bit b2 + 8 * bit b3 + 16 * bit b4
unfolding table
table_lem b0 b1 b2 b3 b4 = ground arith

abbrev pub has_snap : Pictures → ℕ → Bool
has_snap ps i = has_data (snap ps i)

-- Bit `i` of the mask says whether snap `i` has data, for the five snaps, and no other bit is set.
pub get_snap_mask-bits :
    (ps : Pictures)
    → get_snap_mask ps
      ≡ bit (has_snap ps 0)
        + 2 * bit (has_snap ps 1)
        + 4 * bit (has_snap ps 2)
        + 8 * bit (has_snap ps 3)
        + 16 * bit (has_snap ps 4)
unfolding get_snap_mask table
get_snap_mask-bits ps =
    table_lem (has_snap ps 0) (has_snap ps 1) (has_snap ps 2) (has_snap ps 3) (has_snap ps 4)
