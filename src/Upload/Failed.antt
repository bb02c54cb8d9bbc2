-- ===== src/Upload/Failed.antt =====
-- What an upload does to the table of the videos and to the files, whether it succeeds or fails.
use ott_quic.Common.{ℕ, ◌≡◌, ◌⊎◌, true, false, none, some, [], ◌∷◌, ◌++◌, ltb, length, ◌*◌}
use ott_quic.Text.{Text, codes, print_int}
use ott_quic.Upload.Form.{Parts, parse_multipart, boundary_of}
use ott_quic.Upload.{
  Videos, Tools, Result, wrote, removed, ran, base_name, video_path, thumb_path, or_else,
  uploaded_text,
}

module _ (videos : Videos) (tools : Tools) (store : videos.Store) where
  -- A video was put into the table, with the title and the description of the form or what stands
  -- for them.
  pub record Created (file : Text) (parts : Parts) : Type 0 where
    pub video : ℕ
    pub created_store : videos.Store
    pub created :
        videos.create_video store
          (or_else parts.title (base_name videos tools))
          (or_else parts.description (codes "uploaded"))
          (video_path videos tools)
          (thumb_path videos tools)
          tools.duration
        ≡ some (video, created_store)

  abbrev pub script : ℕ → Text
  script video =
      codes "tools/segment_video.sh " ++ (print_int video ++ (codes " " ++ video_path videos tools))

  -- The upload succeeded: the reply names the video, and the table knows its segments.
  abbrev pub IsStored : Text → Parts → Result videos → Type 0
  IsStored file parts r =
      (c : Created file parts) × (tools.segmented ≡ true)
      × (r ≡ (
        true,
        some (uploaded_text c.video),
        videos.update_video_segment_path c.created_store c.video
            (codes "data/segments/" ++ print_int c.video),
        wrote (video_path videos tools) file parts.file_len ∷ ran (script c.video) ∷ [],
      ))

  -- The script failed: the video is deleted again, as far as the table does it, and both files are
  -- removed.
  abbrev pub IsWithdrawn : Text → Parts → Result videos → Type 0
  IsWithdrawn file parts r =
      (c : Created file parts) × (tools.segmented ≡ false)
      × (r ≡ (
        false,
        none,
        (videos.delete_video_by_id c.created_store c.video).1,
        wrote (video_path videos tools) file parts.file_len
            ∷ ran (script c.video)
            ∷ removed (video_path videos tools)
            ∷ removed (thumb_path videos tools)
            ∷ [],
      ))

  -- A form fails before a video is in the table.
  pub data NotStored (parts : Parts) : Type 0 where
    no_directories : tools.directories ≡ false → NotStored parts
    not_written : tools.written ≡ false → NotStored parts
    not_created :
        videos.create_video store
            (or_else parts.title (base_name videos tools))
            (or_else parts.description (codes "uploaded"))
            (video_path videos tools)
            (thumb_path videos tools)
            tools.duration
          ≡ none
        → NotStored parts

  abbrev pub IsUntouched : Result videos → Type 0
  IsUntouched r = (r.0 ≡ false) × (r.2 ≡ store)

  -- What becomes of a form that was parsed.
  abbrev pub IsHandled : Text → Parts → Result videos → Type 0
  IsHandled file parts r =
      (NotStored parts × IsUntouched r) ⊎ IsWithdrawn file parts r ⊎ IsStored file parts r

  -- A request has no form that can be parsed.
  pub data NotParsed (content_type body : Text) : Type 0 where
    no_body : length body ≡ 0 → NotParsed content_type body
    too_large : ltb (2 * 1024 * 1024 * 1024) (length body) ≡ true → NotParsed content_type body
    no_boundary : boundary_of content_type ≡ none → NotParsed content_type body
    short_boundary :
        (boundary : Text)
        → boundary_of content_type ≡ some boundary
        → ltb (length boundary) 4 ≡ true
        → NotParsed content_type body
    no_form :
        (boundary : Text)
        → boundary_of content_type ≡ some boundary
        → parse_multipart tools.allocated body boundary ≡ none
        → NotParsed content_type body

  -- The form of a request, and what becomes of it.
  pub record Parsed (content_type body : Text) (r : Result videos) : Type 0 where
    pub boundary : Text
    pub file : Text
    pub parts : Parts
    pub bounded : boundary_of content_type ≡ some boundary
    pub parsed : parse_multipart tools.allocated body boundary ≡ some (file, parts)
    pub handled : IsHandled file parts r
