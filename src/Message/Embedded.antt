-- ===== src/Message/Embedded.antt =====
-- `embedded_visible_elements` and `trim_media_path` of msg3_parser.rs.
use qq_analyzer.Base.{
  ℕ, ◌+◌, ◌%◌, ◌/◌, List, [], ◌∷◌, ◌++◌, Option, none, some, Bool, ◌||◌, if◌then◌else◌, length,
  take, drop, any,
}
use qq_analyzer.Text.{Text, lit, starts_with, ends_with, contains, to_ascii_lowercase}
use qq_analyzer.Text.Utf16.{encode_utf16}
use qq_analyzer.Text.Find.{find}
use qq_analyzer.Message.Element.{Element, blank}
use qq_analyzer.Message.Runs.{utf16le_embedded_strings}

abbrev media_extensions : List Text
media_extensions =
    lit ".jpg"
    ∷ lit ".jpeg"
    ∷ lit ".png"
    ∷ lit ".gif"
    ∷ lit ".webp"
    ∷ lit ".bmp"
    ∷ lit ".mp4"
    ∷ lit ".webm"
    ∷ lit ".mov"
    ∷ lit ".amr"
    ∷ lit ".mp3"
    ∷ lit ".wav"
    ∷ lit ".ogg"
    ∷ lit ".m4a"
    ∷ []

abbrev cut_behind : Text → List Text → Text
cut_behind text [] = text
cut_behind text (ext ∷ exts) = elim (find ext (to_ascii_lowercase text)) [
  | some idx ↦ take (idx + length ext) text
  | none ↦ cut_behind text exts
]

unfoldable pub trim_media_path : Text → Text
trim_media_path text = cut_behind text media_extensions

abbrev from_needle : Text → List Text → Text
from_needle text [] = text
from_needle text (needle ∷ needles) = elim (find needle text) [
  | some idx ↦ drop idx text
  | none ↦ from_needle text needles
]

abbrev utf16_bytes : List ℕ → List ℕ
utf16_bytes [] = []
utf16_bytes (w ∷ ws) = w % 256 ∷ w / 256 ∷ utf16_bytes ws

abbrev path_element : ℕ → ℕ → ℕ → Text → Text → Text → Element
path_element offset typ id name text summary =
    let payload = utf16_bytes (encode_utf16 text) in
    record (blank offset typ payload) {
      fields = record { id = id; name = name; value = payload; text = text } ∷ [];
      summary = summary;
    }

abbrev is_image_text : Text → Bool
is_image_text image_text =
    starts_with (lit "UserDataImage:") image_text
    || starts_with (lit "UserDataCustomFace:") image_text
    || contains (92 ∷ lit "Image") image_text
    || any (λ ext. ends_with ext (to_ascii_lowercase image_text))
        (lit ".jpg" ∷ lit ".jpeg" ∷ lit ".png" ∷ lit ".gif" ∷ lit ".webp" ∷ [])

abbrev visible_element : ℕ → Text → Option Element
visible_element offset text =
    let image_text =
      trim_media_path (from_needle text (lit "UserDataImage:" ∷ lit "UserDataCustomFace:" ∷ [])) in
    if is_image_text image_text
    then some (path_element offset 6 2 (lit "image_path") image_text (lit "[图片]"))
    else if starts_with (lit "UserDataRoot:Video") text
        || contains (92 ∷ lit "video" ++ 92 ∷ []) (to_ascii_lowercase text)
    then some (path_element offset 0x1a 1 (lit "embedded_video_path") text (lit "[视频]"))
    else if starts_with (lit "UserDataFileRecv:") text || contains (lit "FileRecv") text
    then some (path_element offset 7 3 (lit "embedded_file_path") text (lit "[文件]"))
    else none

abbrev visible_elements : List (ℕ × Text) → List Element
visible_elements [] = []
visible_elements ((offset, text) ∷ more) = elim (visible_element offset text) [
  | none ↦ visible_elements more
  | some e ↦ e ∷ visible_elements more
]

unfoldable pub embedded_visible_elements : List ℕ → List Element
embedded_visible_elements bytes = visible_elements (utf16le_embedded_strings bytes 5)
