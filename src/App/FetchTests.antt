-- ===== src/App/FetchTests.antt =====
-- Pictures of a face and of four cameras are posted to the whole server, and fetched.
use beast_examples.Common.{
  map, take, reject, not, [], ◌⊎◌, Forall₂, ◌++◌, catch, ◌≡◌, refl, List, codes, none, ok, arith,
}
use beast_examples.Http.{text, Request, Response}
use beast_examples.Session.Order.{accepted}
use beast_examples.Session.Replies.{asked}
use beast_examples.App.Framing.{IsFramed}
use beast_examples.App.Sources.{IsPosted}
use beast_examples.App.Provenance.{requested, answer-Viewed}
use beast_examples.App.Sessions.{here}
use beast_examples.App.Framed.{run_events-IsFramed}
use beast_examples.Utils.{create_json_ok}
use beast_examples.Preview.Defs.{
  PictureView, Pictures, picture_url, snap, track, has_data, get_track_urls, get_snap_urls,
}
use beast_examples.Preview.Serving.{picture_response}
use beast_examples.Preview.Reading.{split_slash-Splits, read_decimal-Converts, name, name-Draws}
use beast_examples.Server.{routes, after_last}
use beast_examples.App.{handler}
use beast_examples.App.Listed.{fetched, shown_as, fetched-get_urls}
use beast_examples.App.Listing.{IsListPath, prev_query, listing, answer-list_handler}
use beast_examples.Preview.Holding.{Holds, since, at_most}
use beast_examples.JsonApi.{recover}
use beast_examples.App.Fetching.{resolve-IsPicturePath, answer, answer-Runs}
use beast_examples.App.Sample.{
  plain, starts_with, matching, outside, matching-Routed, site, never, shown, first_preview, filled,
  visited, posts, opened, filled_lem, first_preview-Stays, filled-Reach, filled-visited,
}

-- Snap 2 and track 2.
answer-Runs_example :
    (answer outside (codes "/srv") (site visited) shown (picture_url (name 9) (codes "/tracks/") 2)
      ≡ ok (picture_response shown (track first_preview 2)))
    × (answer outside (codes "/srv") (site visited) shown (picture_url (name 9) (codes "/snaps/") 2)
        ≡ ok (picture_response shown (snap first_preview 2)))
answer-Runs_example =
    answer-Runs outside (codes "/srv") never never name-Draws first_preview 1 shown 2
      split_slash-Splits read_decimal-Converts (matching-Routed (name 9)) (refl, refl) refl
      filled-Reach first_preview-Stays filled-visited (omega arith) (omega arith)

-- The addresses of the preview.
fetched-get_urls_example :
    (map
        (fetched outside (codes "/srv") shown filled.server)
        (take 10 (get_track_urls first_preview))
      ≡ map (shown_as outside (codes "/srv") shown filled.server) (take 10 first_preview.tracks))
    × (map (fetched outside (codes "/srv") shown filled.server) (get_snap_urls first_preview)
        ≡ map
            (shown_as outside (codes "/srv") shown filled.server)
            (reject (λ v. not (has_data v)) first_preview.snaps))
fetched-get_urls_example =
    fetched-get_urls outside (codes "/srv") shown filled.server first_preview split_slash-Splits
      read_decimal-Converts (matching-Routed (name 9)) (refl, refl) refl first_preview-Stays.0
      (omega arith)

-- A list of what was made after `zz`.
abbrev listed_after : Request
listed_after = record shown { target = codes "/api/v1/realtime/preview?prev=zz" }

list_path : IsListPath matching listed_after.target
unfolding routes starts_with
list_path = ((refl, (refl, (refl, (refl, (refl, (refl, tt)))))), refl)

no_query : after_last prev_query (codes "zz") ≡ none
unfolding after_last
no_query = refl

answer-list_handler_example :
    (pss : List Pictures) × Holds filled.server.previews pss
    × ((handler outside (codes "/srv") listed_after.target listed_after filled.server).1
        ≡ catch
            (create_json_ok plain listed_after
              (listing plain (at_most 10 (since (codes "zz") pss))))
            (recover plain listed_after))
answer-list_handler_example =
    answer-list_handler outside (codes "/srv") never never name-Draws listed_after
      (codes "/api/v1/realtime/preview") (codes "zz") filled-Reach refl no_query list_path refl

-- The replies to the pictures that are posted.
run_events-IsFramed_example :
    (ms : List Response) × (accepted filled.session ≡ accepted opened.session ++ ms)
    × Forall₂ (IsFramed outside.open_file) (asked never posts) ms
run_events-IsFramed_example =
    run_events-IsFramed outside (codes "/srv") never never posts opened filled filled_lem

-- Track 2 is one of the pictures that were posted.
abbrev sent_track : Response
sent_track = picture_response shown (track first_preview 2)

answer-Viewed_example :
    (v : PictureView) × (sent_track.body ≡ text v.bytes)
    × (IsPosted outside
          (codes "/srv")
          (requested outside (codes "/srv") never never filled-Reach)
          v.bytes
        ⊎ (v.bytes ≡ []))
answer-Viewed_example =
    answer-Viewed outside (codes "/srv") never never filled-Reach
      (picture_url (name 9) (codes "/tracks/") 2)
      (record shown { target = picture_url (name 9) (codes "/tracks/") 2 }) sent_track
      (resolve-IsPicturePath matching _ (matching-Routed (name 9) 2 (omega arith)).0)
      (answer-Runs outside (codes "/srv") never never name-Draws first_preview 1 shown 2
        split_slash-Splits read_decimal-Converts (matching-Routed (name 9)) (refl, refl) refl
        filled-Reach first_preview-Stays here (omega arith) (omega arith)).0
      refl
