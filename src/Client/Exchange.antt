-- ===== src/Client/Exchange.antt =====
-- What a posted picture does to the server, and what `postPictures` returns (src/democlient.cpp).
use beast_examples.Common.{
  take, Option, List, ℕ, ◌≡◌, Bool, true, if◌then◌else◌, Text, codes, some, Result, ok,
}
use beast_examples.Json.{JsonLib}
use beast_examples.Http.{Request, Response, Status, status_ok, internal_server_error, post}
use beast_examples.Utils.{create_json_ok}
use beast_examples.Preview.Defs.{PictureView, Previews}
use beast_examples.Cache.{Cache}
use beast_examples.JsonApi.{handle_request}
use beast_examples.Server.{post_handler, routes, resolve, Route, post_picture}
use beast_examples.Server.Laws.{NoneMatches}
use beast_examples.Client.{ClientRequest, NetLib}

-- What the server reads: as much of the body as the message announces; a message of HTTP/1.1 keeps
-- the connection, unless it says otherwise.
abbrev pub received : ClientRequest → Request
received c = record {
  method = c.method;
  target = c.target;
  version = c.version;
  keep_alive = true;
  body = take c.content_length c.body;
}

-- The network reaches, under port 8088 of the host 127.0.0.1, a server that answers by `serve`.
-- Nothing is said of any other address.
pub record Serves {W : Type 0} (N : NetLib W) (serve : Request → W → W × Result Response)
    : Type 0 where
  pub reaches :
      (w : W)
      → (found : N.Addresses) × (N.resolve (codes "127.0.0.1") (codes "8088") w ≡ (ok found, w))
        × ((v : W)
            → (socket : N.Socket) × (N.connect found v ≡ (ok socket, v))
              × ((c : ClientRequest) (x : W)
                  → (sent : N.Socket) × (y : W) × (N.write c socket x ≡ (ok sent, y))
                    × ((res : Response)
                        → (serve (received c) x).1 ≡ ok res
                        → N.read sent y ≡ (ok res, (serve (received c) x).0))))
  pub shuts : (socket : N.Socket) (w : W) → N.shutdown socket w ≡ w

-- The request that carries a picture.
abbrev pub picture_request : Text → Request
picture_request payload = record {
  method = post;
  target = codes "/api/v1/realtime/preview/pictures";
  version = 11;
  keep_alive = true;
  body = payload;
}

-- The path of posted pictures matches its pattern, and no earlier one of the table.
abbrev pub IsPostPath : (Text → Text → Bool) → Text → Type 0
IsPostPath matches path =
    NoneMatches matches path (take 5 routes)
    × (matches path (codes "^/api/v1/realtime/preview/pictures$") ≡ true)

-- The server: a request whose target is resolved to the route of posted pictures goes to the handler
-- of JSON requests around `postHandler`, any other one to `other`.
module _ (J : JsonLib) (encode : Text → Text) (decode : Text → Result Text) (now : ℕ)
    (create : List PictureView → Previews → Previews) (matches : Text → Text → Bool)
    (other : Request → Cache × Previews → (Cache × Previews) × Result Response) where
  abbrev pub answered_by :
      Option Route → Request → Cache × Previews → (Cache × Previews) × Result Response
  answered_by (some post_picture) = handle_request J (post_handler J decode encode now create)
  answered_by _ = other

  abbrev pub serve : Request → Cache × Previews → (Cache × Previews) × Result Response
  serve req = answered_by (resolve matches req.target routes) req

-- `{"ret": 0}` can be dumped.
abbrev pub DumpsRet : JsonLib → Type 0
DumpsRet J = (req : Request) → (res : Response) × (create_json_ok J req J.null ≡ ok res)

abbrev pub status_of : Bool → Status
status_of fits = if fits then status_ok else internal_server_error

-- What a call of `addPicture` leaves.
abbrev pub left_by : Cache × Previews × Result (Unit {0}) → Cache × Previews
left_by (c, q, r) = (c, q)
