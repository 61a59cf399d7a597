-- ===== src/Preview/SerialTests.antt =====
-- Two calls of `createPreview`, the second of which gets the mutex first.
use beast_examples.Common.{Option, ◌+◌, ◌≡◌, [], ◌∷◌, length, take, Text, codes, some, ok}
use beast_examples.Preview.Defs.{new_previews, collect}
use beast_examples.Preview.Holding.{since, at_most}
use beast_examples.Preview.History.{AllFresh, made_by}
use beast_examples.Preview.Reading.{name, name-Draws}
use beast_examples.Preview.Serial.{alone, serial, Reach-create_all}
use beast_examples.Preview.Threads.{
  Call, Calls, counted, inserting, Reach, begin, later, draw, insert,
}

abbrev generate : Text → Option Text
generate t = some t

abbrev first : Call
first = record { uuid = name 0; now = 7; views = record { bytes = codes "a" } ∷ [] }

abbrev second : Call
second = record { uuid = name 1; now = 8; views = record { bytes = codes "b" } ∷ [] }

abbrev both : Calls
both = record {
  previews = inserting first (inserting second (counted (counted (new_previews 1))));
  drawn = 2;
  pending = [];
  inserted = first ∷ second ∷ [];
}

both-Reach : Reach (λ n. some (name n)) generate 1 both
both-Reach =
    later
      (later (later (later begin (draw 7 first.views _)) (draw 8 second.views _))
        (insert _ 2 [] (first ∷ []) [] second))
      (insert _ 2 [] [] (second ∷ []) first)

Reach-create_all_example :
    (both.previews.ids ≡ (alone generate 1 both.inserted).ids)
    × (both.previews.pictures ≡ (alone generate 1 both.inserted).pictures)
    × AllFresh generate (serial both.inserted) (new_previews 1)
    × (length both.inserted + length both.pending ≡ both.drawn)
    × (collect (codes "z") 3 both.previews.pictures 0 both.previews.ids
        ≡ ok (
            at_most 3 (
              since
                (codes "z")
                (take 1 (made_by generate (serial both.inserted) (new_previews 1) [])))))
Reach-create_all_example =
    Reach-create_all (λ n. some (name n)) generate 1 name-Draws (codes "z") 3 both-Reach
