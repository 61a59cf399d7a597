-- ===== src/Client/Command.antt =====
-- What a run of the command does to the server (src/testclient.c, src/democlient.cpp).
use beast_examples.Common.{ℕ, length, Text, codes, some, if◌then◌else◌, text_eq, ◌==◌}
use beast_examples.Picture.{PostPicture, body, face}
use beast_examples.Cache.{Cache}

-- The picture that the arguments describe.
abbrev pub described : (Text → ℕ) → (Text → ℕ) → Text → Text → Text → Text → Text → PostPicture
described atoi atoll kind content camera object_number stamp = record {
  camera_id = atoi camera;
  object_id = atoi object_number;
  object_type = if kind == codes "face" then face else body;
  timestamp = atoll stamp;
  width = 0;
  height = 0;
  size = length content;
  pixels = some content;
}
