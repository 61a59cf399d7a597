-- ===== src/App/Lasting.antt =====
-- How long a preview can be fetched from the whole server (src/main.cpp).
use beast_examples.Common.{
  subst, ℕ, zero, suc, ◌+◌, ◌-◌, ◌%◌, ◌^◌, ◌≤◌, ◌<◌, ◌≡◌, refl, ◌∙◌, true, text_eq, text_eqb_iff,
  List, [], ◌∷◌, take, Text, Option, Option-cases, some, arith, inl, inr,
}
use beast_examples.Common.Assoc.{lookup}
use beast_examples.Http.{Request}
use beast_examples.Preview.Defs.{PictureView, Pictures, Previews, create_preview}
use beast_examples.Preview.Trimming.{contains, contains-take}
use beast_examples.Preview.Store.{next_id, create_preview-Inv, lookup-create_kept}
use beast_examples.Server.{
  Route, version_api, sampling_start, sampling_status, sampling_stop, picture, post_picture,
  list_pictures, files, routes, resolve, post_handler, list_handler,
}
use beast_examples.App.{Outside, App, dispatch, handler, create, version_handler}
use beast_examples.Preview.Drawing.{Draws, fresh}
use beast_examples.App.Pictures.{Held, Outcome, unchanged, created, post_handler-Outcome}
use beast_examples.App.Invariant.{AppInv, handler-AppInv, json_keeps}

-- The preview is stored, and among the `n` newest.
abbrev pub Stays : Text → Pictures → ℕ → Previews → Type 0
Stays k ps n p = (lookup k p.pictures ≡ some ps) × (contains k (take n p.ids) ≡ true)

contains-take-suc :
    (k : Text) (n : ℕ) (ids : List Text)
    → contains k (take n ids) ≡ true
    → contains k (take (suc n) ids) ≡ true
contains-take-suc k zero ids h = cc
contains-take-suc k (suc n) [] h = cc
contains-take-suc k (suc n) (i ∷ ids) h = ground (arith, contains-take-suc k n ids)

contains-take-take :
    (k : Text) (n limit : ℕ) (ids : List Text)
    → contains k (take n ids) ≡ true
    → n ≤ limit
    → contains k (take n (take limit ids)) ≡ true
contains-take-take k zero limit ids h room = cc
contains-take-take k (suc n) zero ids h room = absurd (omega arith)
contains-take-take k (suc n) (suc limit) [] h room = cc
contains-take-take k (suc n) (suc limit) (i ∷ ids) h room =
    ground (arith, contains-take-take k n limit ids)

-- One more identifier in front, and the list cut again.
contains-take_shift :
    (k j : Text) (n limit : ℕ) (ids : List Text)
    → contains k (take n ids) ≡ true
    → n < limit
    → contains k (take (suc n) (take limit (j ∷ ids))) ≡ true
contains-take_shift k j n zero ids h room = absurd (omega arith)
contains-take_shift k j n (suc limit) ids h room =
    ground (arith, contains-take-take k n limit ids h (omega arith))

dispatch-Outcome :
    (E : Outside) (root : Text) (route : Route) (req : Request) (s : App)
    → Outcome (create E root s.turn) s.previews (dispatch E root route req s).0.previews
unfolding dispatch list_handler
dispatch-Outcome E root version_api req s =
    json_keeps E.json (λ t. Outcome (create E root s.turn) s.previews t.previews)
      (version_handler E root) req s unchanged unchanged
dispatch-Outcome E root sampling_start req s = unchanged
dispatch-Outcome E root sampling_status req s = unchanged
dispatch-Outcome E root sampling_stop req s = unchanged
dispatch-Outcome E root picture req s = unchanged
dispatch-Outcome E root post_picture req s =
    json_keeps E.json (λ r. Outcome (create E root s.turn) s.previews r.1)
      (post_handler E.json E.decode E.encode (E.clock s.turn) (create E root s.turn)) req
      (s.cache, s.previews) unchanged
      (post_handler-Outcome E.json E.decode E.encode (E.clock s.turn) (create E root s.turn) req
        s.cache s.previews)
dispatch-Outcome E root list_pictures req s =
    json_keeps E.json (Outcome (create E root s.turn) s.previews) (list_handler E.json) req
      s.previews unchanged unchanged
dispatch-Outcome E root files req s = unchanged

create-Stays :
    (now : ℕ) (random : ℕ → Option Text) (generate : Text → Option Text) (turn : ℕ)
    (views : List PictureView) (k : Text) (ps : Pictures) (n : ℕ) (p : Previews)
    → Draws random
    → Held random turn p
    → n < 30
    → Stays k ps n p
    → Stays k ps (suc n) (create_preview now (random turn) generate views p)
create-Stays now random generate turn views k ps n p d (v, named, limit) room (found, there) =
    let new = fresh random generate turn ((p.seq + 1) % 2 ^ 64) p.ids d named in
    let (_, ids, _, _) = create_preview-Inv now (random turn) generate views p v new in
    let j = next_id now (random turn) generate views p in
    let front : contains k (take (suc n) (create_preview now (random turn) generate views p).ids)
        ≡ true =
      rw (ids, limit) (contains-take_shift k j n 30 p.ids there room) in
    let old : contains k p.ids ≡ true = contains-take k n p.ids there in
    (
      lookup-create_kept now (random turn) generate views p k v new
            (contains-take k (suc n) _ front)
          ∙ ground (arith, text_eqb_iff j k, found, new, old),
      front,
    )

Outcome-Stays :
    (create : List PictureView → Previews → Previews) (k : Text) (ps : Pictures) (n : ℕ)
    (p q : Previews)
    → ((views : List PictureView) → Stays k ps (suc n) (create views p))
    → Stays k ps n p
    → Outcome create p q
    → Stays k ps (suc n) q
Outcome-Stays create k ps n p q made (found, there) unchanged =
    (found, contains-take-suc k n p.ids there)
Outcome-Stays create k ps n p q made h (created views) = made views

pub dispatch-turn :
    (E : Outside) (root : Text) (route : Route) (req : Request) (s : App)
    → (dispatch E root route req s).0.turn ≡ s.turn
unfolding dispatch
dispatch-turn E root version_api req s =
    json_keeps E.json (λ t. t.turn ≡ s.turn) (version_handler E root) req s refl refl
dispatch-turn E root _ req s = refl

-- Since the turn `base`, when the preview was among the `n` newest.
pub record Lasts (random : ℕ → Option Text) (base : ℕ) (ps : Pictures) (n : ℕ) (s : App)
    : Type 0 where
  pub inv : AppInv random s
  pub on : base ≤ s.turn
  pub kept : n + s.turn ≤ base + 30 → Stays ps.uuid ps (n + (s.turn - base)) s.previews

module _ (E : Outside) (root : Text) (d : Draws E.random) (base : ℕ) (ps : Pictures) (n : ℕ) where
  dispatch-Stays :
      (route : Route) (req : Request) (s : App)
      → Lasts E.random base ps n s
      → n + (s.turn + 1) ≤ base + 30
      → Stays ps.uuid ps (n + (s.turn + 1 - base)) (dispatch E root route req s).0.previews
  dispatch-Stays route req s h room =
      let old = h.kept (omega arith) in
      let age : suc (n + (s.turn - base)) ≡ n + (s.turn + 1 - base) = omega (arith, h.on) in
      subst (λ m. Stays ps.uuid ps m (dispatch E root route req s).0.previews) age
        (Outcome-Stays (create E root s.turn) ps.uuid ps (n + (s.turn - base)) s.previews _
          (λ views.
            create-Stays (E.clock s.turn) E.random E.generate s.turn views ps.uuid ps
              (n + (s.turn - base)) s.previews d h.inv.previews (omega (arith, h.on)) old)
          old (dispatch-Outcome E root route req s))

  pub handler-Lasts :
      (path : Text) (req : Request) (s : App)
      → Lasts E.random base ps n s
      → Lasts E.random base ps n (handler E root path req s).0
  unfolding handler
  handler-Lasts path req s h = elim (Option-cases (resolve E.matches path routes)) [
    | inl missing ↦ rw missing h
    | inr (route, found) ↦
        let turn = dispatch-turn E root route req s in
        let inv = handler-AppInv E root d path req s h.inv in
        record {
          inv = inv;
          on = rw found (rw turn (omega (arith, h.on)));
          kept = rw found (rw turn (dispatch-Stays route req s h));
        }
  ]
