-- ===== src/Client/Tests.antt =====
-- A client on the server's own machine, whose picture is refused.
use beast_examples.Common.{
  Bool, ◌++◌, ◌&&◌, ◌==◌, text_eq, if◌then◌else◌, ℕ, ◌%◌, ◌^◌, ◌∷◌, List, [], Text, codes, Option,
  none, some, Result, ok, throw, runtime_error,
}
use beast_examples.Json.{JsonLib}
use beast_examples.Json.Sample.{Json, sample, sample-JsonLaws, str}
use beast_examples.Http.{Request, Response}
use beast_examples.Picture.{PostPicture, body, to_json}
use beast_examples.Preview.Defs.{PictureView, Previews, new_previews, create_preview}
use beast_examples.Cache.{add_picture, Cache}
use beast_examples.Server.Laws.{wrapped}
use beast_examples.Client.{ClientRequest, Io, NetLib}
use beast_examples.Preview.Reading.{read_decimal}
use beast_examples.Client.Command.{described}
use beast_examples.Client.Exchange.{left_by, received, serve}

-- A pattern without special characters matches one text: enough for this path.
abbrev literal : Text → Text → Bool
literal path pattern = pattern == b'^' ∷ path ++ codes "$"

abbrev refuse : Request → Cache × Previews → (Cache × Previews) × Result Response
refuse req s = (s, throw (runtime_error (codes "not modelled here")))

-- A socket holds the request that was written to it.
abbrev read_answer :
    {W : Type 0} → (Request → W → W × Result Response) → Option ClientRequest → Io W Response
read_answer answer none w = (throw (runtime_error (codes "end of stream")), w)
read_answer answer (some c) w = let (v, r) = answer (received c) w in (r, v)

abbrev wire : {W : Type 0} → (Request → W → W × Result Response) → NetLib W
wire answer = record {
  Addresses = Text × Text;
  Socket = Option ClientRequest;
  resolve = λ host service w. (
    if (host == codes "127.0.0.1") && (service == codes "8088")
        then ok (host, service)
        else throw (runtime_error (codes "host not found")),
    w,
  );
  connect = λ found w. (ok none, w);
  write = λ c socket w. (ok (some c), w);
  read = read_answer answer;
  shutdown = λ socket w. w;
}

abbrev digits : Text → Text
digits t = t

abbrev bytes : Text → Result Text
bytes t = ok t

-- The server knows the cameras 0 to 3.
abbrev far_camera : PostPicture
far_camera = record {
  camera_id = 9;
  object_id = 17;
  object_type = body;
  timestamp = 1500000000;
  width = 1;
  height = 3;
  size = 3;
  pixels = some (codes "abc");
}

abbrev dumped : Json → Result Text
dumped j = ok (codes "{}")

abbrev parsed : Text → Result Json
parsed t = ok (to_json (sample dumped (λ u. ok (str u))) digits bytes far_camera)

abbrev plain : JsonLib
plain = sample dumped parsed

abbrev no_pictures : Cache
no_pictures = record { bodies = []; faces = [] }

abbrev create : List PictureView → Previews → Previews
create views p = create_preview 101 none (λ t. some t) views p

abbrev answer : Request → Cache × Previews → (Cache × Previews) × Result Response
answer = serve plain digits bytes 100 create literal refuse

-- The command reads numbers as the decimal numbers at the front of its arguments, and any file is
-- `abc`.
abbrev number : ℕ → Text → ℕ
number bits t = read_decimal t 0 % 2 ^ bits

abbrev disk : Text → Option Text
disk path = some (codes "abc")

abbrev asked_for : PostPicture
asked_for =
    described (number 32) (number 64) (codes "face") (codes "abc") (codes "2") (codes "17")
      (codes "150")

abbrev read_back : Text → Result Json
read_back t = ok (to_json (sample dumped (λ u. ok (str u))) digits bytes asked_for)

abbrev command_json : JsonLib
command_json = sample dumped read_back

abbrev command_answer : Request → Cache × Previews → (Cache × Previews) × Result Response
command_answer = serve command_json digits bytes 100 create literal refuse

abbrev command_left : Cache × Previews
command_left = left_by (
    add_picture 100 create
      (wrapped command_json (sample-JsonLaws dumped read_back) digits bytes 100 asked_for)
      no_pictures (new_previews 3))
