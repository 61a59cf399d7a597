-- ===== src/Client/Program.antt =====
-- src/testclient.c: the command that posts one picture from a file.
--
-- A file is the bytes that `ftell` and `fread` find in it, `none` if `fopen` fails. `atoi` and `atoll`
-- are parameters, which give a number as the field's type takes it.
use beast_examples.Common.{
  Bool, true, false, not, is_empty, ◌≡◌, refl, ℕ, ◌%◌, ◌^◌, if◌then◌else◌, List, [], ◌∷◌, length,
  Text, codes, Option, none, some, Result, text_eq, ◌==◌,
}
use beast_examples.Json.{JsonLib}
use beast_examples.Picture.{PostPicture, body, face}
use beast_examples.Client.{NetLib, post_pictures}

-- `readFromFile`: the size, and what `*payload` is set to, `none` where it is left as it was.
unfoldable pub read_from_file : Option Text → ℕ × Option Text
read_from_file none = (0, none)
read_from_file (some []) = (0, none)
read_from_file (some (c ∷ t)) = (length (c ∷ t), some (c ∷ t))

-- How `main` ends: by an exit code, or by `free` of a pointer that was never set.
pub data Ended (W : Type 0) : Type 0 where
  exited : ℕ → W → Ended W
  freed_unset : W → Ended W

-- `free(pic.data)`, then `return ret`
abbrev pub free_data : {W : Type 0} → Option Text → ℕ × W → Ended W
free_data none (ret, w) = freed_unset w
free_data (some t) (ret, w) = exited ret w

module _ {W : Type 0} (N : NetLib W) (J : JsonLib) (encode : Text → Text)
    (decode : Text → Result Text) (files : Text → Option Text) (atoi atoll : Text → ℕ) where
  -- The fields of `pic`, where `size` is an `unsigned int`.
  abbrev pub picture_of : Text → ℕ × Option Text → Text → Text → Text → PostPicture
  picture_of kind (size, payload) camera object_number stamp = record {
    camera_id = atoi camera;
    object_id = atoi object_number;
    object_type = if kind == codes "face" then face else body;
    timestamp = atoll stamp;
    width = 0;
    height = 0;
    size = size % 2 ^ 32;
    pixels = payload;
  }

  -- `main` of the program's name and its arguments; with fewer it prints how to use it.
  unfoldable pub main : List Text → W → Ended W
  unfolding read_from_file
  main (program ∷ kind ∷ path ∷ camera ∷ object_number ∷ stamp ∷ more) w =
      let payload = read_from_file (files path) in
      free_data payload.1
        (post_pictures N J encode decode (picture_of kind payload camera object_number stamp) w)
  main _ w = exited 1 w

  abbrev is_readable : Option Text → Bool
  is_readable none = false
  is_readable (some t) = not (is_empty t)

  abbrev is_exited : Ended W → Bool
  is_exited (exited ret w) = true
  is_exited (freed_unset w) = false

  free_read_from_file :
      (content : Option Text) (r : ℕ × W)
      → is_exited (free_data (read_from_file content).1 r) ≡ is_readable content
  unfolding read_from_file
  free_read_from_file none r = refl
  free_read_from_file (some []) r = refl
  free_read_from_file (some (c ∷ t)) r = refl

  -- With all its arguments the command ends by an exit code if its file can be opened and is not
  -- empty, and else it frees the pointer that it has not set.
  main-is_exited :
      (program kind path camera object_number stamp : Text) (more : List Text) (w : W)
      → is_exited (main (program ∷ kind ∷ path ∷ camera ∷ object_number ∷ stamp ∷ more) w)
        ≡ is_readable (files path)
  unfolding main
  main-is_exited program kind path camera object_number stamp more w =
      free_read_from_file (files path) (
        post_pictures N J encode decode
          (picture_of kind (read_from_file (files path)) camera object_number stamp) w)
