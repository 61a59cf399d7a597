-- ===== src/Picture.antt =====
-- src/democlient.h and src/PostPicture.cpp: a picture, its JSON form and its comparison.
--
-- `pixels` is the buffer that the pointer `data` names, `none` for a null pointer. The base-64
-- iterators of Boost are the parameters `encode` (without padding) and `decode`.
pub mod Laws
pub mod Reading
mod Tests
use beast_examples.Common.{
  ℕ, ◌+◌, ◌-◌, ◌%◌, ◌^◌, ◌≤◌, Bool, true, false, ◌&&◌, not, if◌then◌else◌, leb, nat_eqb, text_eqb,
  List, [], ◌∷◌, ◌++◌, length, take, drop, Text, codes, Option, none, some, Result, ok, throw,
  ◌>>=◌, runtime_error, Exn, what, catch, replicate, unknown, ◌==◌, text_eq,
}
use beast_examples.Json.{JsonLib}

pub data ObjectType : Type 0 where
  body face : ObjectType

pub record PostPicture : Type 0 where
  pub camera_id : ℕ
  pub object_id : ℕ
  pub object_type : ObjectType
  pub timestamp : ℕ
  pub width : ℕ
  pub height : ℕ
  pub size : ℕ
  pub pixels : Option Text

-- `PostPictureWrapper`, with the second at which it was made.
pub record Wrapper : Type 0 where
  pub picture : PostPicture
  pub made_at : ℕ

unfoldable pub create_picture : PostPicture
create_picture = record {
  camera_id = 0;
  object_id = 0;
  object_type = face;
  timestamp = 0;
  width = 0;
  height = 0;
  size = 0;
  pixels = none;
}

-- The default constructor of the wrapper.
unfoldable pub new_wrapper : ℕ → Wrapper
unfolding create_picture
new_wrapper now = record { picture = create_picture; made_at = now }

abbrev pub is_face : ObjectType → Bool
is_face face = true
is_face body = false

abbrev pub type_eqb : ObjectType → ObjectType → Bool
type_eqb a b = if is_face a then is_face b else not (is_face b)

-- The bytes that `data` points to; a null pointer has none.
abbrev pub bytes_of : PostPicture → Text
bytes_of p = elim p.pixels [ none ↦ [] | some t ↦ t ]

-- `operator==`: `memcmp` looks at `a.size` bytes of both buffers.
unfoldable pub same_picture : PostPicture → PostPicture → Bool
same_picture a b =
    nat_eqb a.height b.height
    && nat_eqb a.width b.width
    && nat_eqb a.camera_id b.camera_id
    && nat_eqb a.timestamp b.timestamp
    && nat_eqb a.object_id b.object_id
    && type_eqb a.object_type b.object_type
    && nat_eqb a.size b.size
    && text_eqb (take a.size (bytes_of a)) (take a.size (bytes_of b))

-- The number of `=` that follow the digits of `size` bytes.
unfoldable pub equal_count : ℕ → ℕ
equal_count size = (3 - size % 3) % 3

-- `std::copy` to the buffer of `new char[size]`: what lies in the buffer afterwards, `unknown` where
-- nothing was written, and the number of bytes that were written behind its end.
pub record Copied : Type 0 where
  pub buffer : Text
  pub overrun : ℕ

unfoldable pub copy_into : ℕ → Text → Copied
copy_into size out = record {
  buffer = take size out ++ replicate (size - length out) unknown;
  overrun = length out - size;
}

-- `get_to` of an `unsigned int` and of a `uint64_t`.
abbrev pub u32 : ℕ
u32 = 32

abbrev pub u64 : ℕ
u64 = 64

abbrev pub type_name : ObjectType → Text
type_name t = if is_face t then codes "face" else codes "body"

abbrev pub type_of_name : Text → ObjectType
type_of_name t = if t == codes "face" then face else body

-- `throw std::runtime_error(err.what())`
abbrev pub rethrow {ℓ} : {A : Type ℓ} → Exn → Result A
rethrow e = throw (runtime_error (what e))

module _ (J : JsonLib) (encode : Text → Text) (decode : Text → Result Text) where
  open J use {Json, of_text, of_nat, object, at, get_nat, get_text}

  unfoldable pub encoded_data : PostPicture → Text
  unfolding equal_count
  encoded_data p = encode (take p.size (bytes_of p)) ++ replicate (equal_count p.size) b'='

  -- The initializer list of `to_json`.
  abbrev pub picture_fields : PostPicture → List (Text × Json)
  picture_fields p =
      (codes "camera", of_nat p.camera_id)
      ∷ (codes "object", of_nat p.object_id)
      ∷ (codes "type", of_text (type_name p.object_type))
      ∷ (codes "timestamp", of_nat p.timestamp)
      ∷ (codes "width", of_nat p.width)
      ∷ (codes "height", of_nat p.height)
      ∷ (codes "size", of_nat p.size)
      ∷ (codes "data", of_text (encoded_data p))
      ∷ []

  unfoldable pub to_json : PostPicture → Json
  to_json p = object (picture_fields p)

  -- The picture, and the number of bytes that were written behind the end of its buffer.
  unfoldable pub from_json : Json → Result (PostPicture × ℕ)
  unfolding copy_into
  from_json json = do
    camera ← at (codes "camera") json >>= get_nat u32
    wide ← at (codes "width") json >>= get_nat u32
    high ← at (codes "height") json >>= get_nat u32
    object_number ← at (codes "object") json >>= get_nat u32
    stamp ← at (codes "timestamp") json >>= get_nat u64
    length_of_data ← at (codes "size") json >>= get_nat u32
    name ← at (codes "type") json >>= get_text
    encoded ← at (codes "data") json >>= get_text
    decoded ← catch (decode encoded) rethrow
    let copied = copy_into length_of_data decoded
    ok (
      record {
        camera_id = camera;
        object_id = object_number;
        object_type = type_of_name name;
        timestamp = stamp;
        width = wide;
        height = high;
        size = length_of_data;
        pixels = some copied.buffer;
      },
      copied.overrun,
    )
