-- ===== src/Client.antt =====
-- src/HttpClient.cpp, src/democlient.cpp and src/testclient.c: the client that posts a picture.
--
-- The network is an interface: what is behind it has a state `W`, which the calls may change, also
-- where they throw. `shutdown` gets an error code that nothing reads.
pub mod Exchange
pub mod Program
pub mod Command
mod Tests
use beast_examples.Common.{
  ℕ, length, Bool, List, [], Text, codes, Option, none, some, Result, ok, throw,
}
use beast_examples.Common.Decimal.{to_string}
use beast_examples.Json.{JsonLib}
use beast_examples.Http.{Verb, post, Response}
use beast_examples.Utils.{client_agent}
use beast_examples.Picture.{PostPicture, to_json}

-- `request<string_body>`, with the fields that the client sets.
pub record ClientRequest : Type 0 where
  pub method : Verb
  pub target : Text
  pub version : ℕ
  pub host : Text
  pub user_agent : Text
  pub content_type : Text
  pub content_length : ℕ
  pub body : Text

abbrev pub Io {ℓ} : Type ℓ → Type ℓ → Type ℓ
Io W A = W → Result A × W

abbrev pub pure {ℓ} : {W A : Type ℓ} → A → Io W A
pure a w = (ok a, w)

abbrev pub lift {ℓ} : {W A : Type ℓ} → Result A → Io W A
lift r w = (r, w)

abbrev pub continue {ℓ} : {W A B : Type ℓ} → Result A × W → (A → Io W B) → Result B × W
continue (throw e, w) next = (throw e, w)
continue (ok a, w) next = next a w

infixl 5 ◌>>=◌
abbrev pub ◌>>=◌ {ℓ} : {W A B : Type ℓ} → Io W A → (A → Io W B) → Io W B
(first >>= next) w = continue (first w) next

pub record NetLib (W : Type 0) : Type 1 where
  pub Addresses : Type 0
  pub Socket : Type 0
  -- of a host and a service
  pub resolve : Text → Text → Io W Addresses
  pub connect : Addresses → Io W Socket
  pub write : ClientRequest → Socket → Io W Socket
  pub read : Socket → Io W Response
  pub shutdown : Socket → W → W

pub record HttpClient : Type 0 where
  pub host : Text
  pub port : ℕ
  pub target : Text
  pub req : ClientRequest
  pub resp : Option Response

-- The constructor.
unfoldable pub new_client : Text → ℕ → Text → HttpClient
new_client host port target = record {
  host = host;
  port = port;
  target = target;
  req = record {
    method = post;
    target = target;
    version = 11;
    host = [];
    user_agent = [];
    content_type = [];
    content_length = 0;
    body = [];
  };
  resp = none;
}

-- `HttpClient::post` fills the request.
abbrev pub filled : Text → Text → HttpClient → ClientRequest
filled mime payload c = record (c.req) {
  host = c.host;
  user_agent = client_agent;
  content_type = mime;
  content_length = length payload;
  body = payload;
}

abbrev pub pictures_path : Text
pictures_path = codes "/api/v1/realtime/preview/pictures"

pub record DemoClient : Type 0 where
  pub server : Text
  pub port : ℕ

module _ {W : Type 0} (N : NetLib W) where
  unfoldable pub client_post : Text → Text → HttpClient → Io W HttpClient
  client_post mime payload c = do
    addresses ← N.resolve c.host (to_string c.port)
    socket ← N.connect addresses
    sent ← N.write (filled mime payload c) socket
    answer ← N.read sent
    λ w. (ok (record c { req = filled mime payload c; resp = some answer }), N.shutdown sent w)

  module _ (J : JsonLib) (encode : Text → Text) (decode : Text → Result Text) where
    -- `DemoClient::post`; the JSON is dumped before anything is sent.
    unfoldable pub demo_post : Text → J.Json → DemoClient → Io W (Unit {0})
    unfolding new_client client_post
    demo_post path json d = do
      payload ← lift (J.dump json)
      done ← client_post (codes "application/json") payload (new_client d.server d.port path)
      pure tt

    -- The two ways out of `postPictures`.
    abbrev pub returned : Result (Unit {0}) × W → ℕ × W
    returned (ok _, w) = (0, w)
    returned (throw e, w) = (1, w)

    -- `postPictures`; what `to_json` makes stands before the `try`, and throws nothing here.
    unfoldable pub post_pictures : PostPicture → W → ℕ × W
    unfolding demo_post to_json
    post_pictures p w = returned (
        demo_post pictures_path (to_json J encode decode p)
          (record { server = codes "127.0.0.1"; port = 8088 }) w)
