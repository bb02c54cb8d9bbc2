-- ===== src/Upload/Tests.antt =====
-- Uploads.
use ott_quic.Common.{ℕ, ◌≡◌, refl, true, false, some, List, [], ◌∷◌, length, drop}
use ott_quic.Text.{Text, codes, without, after_text, before}
use ott_quic.Upload.{Videos, Tools}
use ott_quic.Upload.Form.{
  Parts, parse_multipart, part_loop, next_part, add_part, named, is_named, find_bytes,
  behind_boundary, trim_end,
}

abbrev form : Text
form =
    codes
      "--B0\r\nContent-Disposition: form-data; name=\"title\"\r\n\r\nCat\r\n--B0\r\nContent-Disposition: form-data; name=\"f\"; filename=\"a\"\r\n\r\nxyz\r\n--B0--"

abbrev form_parts : Parts
form_parts = record {
  file = some (codes "xyz");
  file_len = 3;
  title = codes "Cat";
  description = [];
}

form_parse : parse_multipart true form (codes "--B0") ≡ some (codes "xyz", form_parts)
unfolding parse_multipart part_loop next_part behind_boundary find_bytes trim_end add_part named
    is_named without after_text before
form_parse = refl

-- A second file that is empty: the length is still that of the first, and the buffer is empty.
abbrev two_files : Text
two_files =
    codes
      "--B0\r\nContent-Disposition: form-data; filename=\"a\"\r\n\r\nxyz\r\n--B0\r\nContent-Disposition: form-data; filename=\"b\"\r\n\r\n\r\n--B0--"

two_files_parse :
    parse_multipart true two_files (codes "--B0")
    ≡ some ([], record { file = some []; file_len = 3; title = []; description = [] })
unfolding parse_multipart part_loop next_part behind_boundary find_bytes trim_end add_part named
    is_named without after_text before
two_files_parse = refl

abbrev counted : Videos
counted = record {
  Store = List Text;
  create_video = λ (store : List Text) (title description path thumb : Text) (duration : ℕ).
      some (length store, title ∷ store);
  delete_video_by_id = λ (store : List Text) (video : ℕ). (true, drop 1 store);
  update_video_segment_path = λ (store : List Text) (video : ℕ) (path : Text). store;
}

abbrev failing : Tools
failing = record {
  allocated = true;
  time = codes "1";
  directories = true;
  written = true;
  duration = 5;
  segmented = false;
}
