-- ===== src/Week06/FileTransfer.antt =====
-- week06/src/file_transfer.c: a file is sent word by word. `send_request_sock` is called with a payload
-- alone, which no function of the repository takes: what the other side receives of it is a parameter
-- of the transfer. A file that is read is the list of its words, one that is written its bytes.
pub mod Words
use networks_course.Prelude.{
  ℕ, zero, suc, Bytes, ℤ, pos, negsuc, is_neg, Bool, true, false, List, [], ◌∷◌, ◌++◌, Option, none,
  some, Run, ok, fault, ◌>>=◌, ◌>>◌, access, in_bounds, length, take, codes, str_eq, ltb,
  if◌then◌else◌,
}
use networks_course.Week06.Control.{answer_of}
use networks_course.Week06.Json.Parser.{deserialize_json}
use networks_course.Week06.Machine.{Machine}
use networks_course.Week06.Json.Value.{Json, null, boolean}
use networks_course.Week06.Json.Interface.{
  create_json_object, create_json_string, json_get_property, json_set_property,
}
use networks_course.Week06.Serializers.{string_value}
use networks_course.Week06.Files.{buffer_size}
use networks_course.Week06.Bootstrap.{Remote}
use networks_course.Week06.Handlers.{Packing}

-- What a call for the uploading side does: its result, the words that are left, and what it sends.
pub record Uploaded : Type 0 where
  pub result : ℤ
  pub words : List Bytes
  pub sent : Json

-- The same of the downloading side, with the bytes of the file.
pub record Downloaded : Type 0 where
  pub result : ℤ
  pub content : Bytes
  pub sent : Option Json

module _ (m : Machine) where
  -- What is received is not looked at.
  unfoldable pub handle_file_upload : List Bytes → Run Uploaded
  handle_file_upload [] = do
    end_of_transmission ←
        json_set_property m create_json_object (codes "end_of_transmission") (boolean (pos 1))
    ok (record { result = negsuc 0; words = []; sent = end_of_transmission })
  handle_file_upload (word ∷ words) = do
    in_bounds (ltb (length word) buffer_size)
    next_word_payload ←
        json_set_property m create_json_object (codes "next_word") (create_json_string word)
    ok (record { result = pos 0; words = words; sent = next_word_payload })

  -- The file, unless it cannot be opened; what is sent before the first word.
  unfoldable pub begin_file_upload : Option (List Bytes) → ℤ × Option Json
  begin_file_upload none = (negsuc 0, none)
  begin_file_upload (some words) = (pos 0, some (create_json_string (codes "begin_file_response")))

  module _ (p : Packing) where
    unfoldable pub write_word : Option Json → Bytes → Run Downloaded
    write_word none content = ok (record { result = negsuc 0; content = content; sent = none })
    write_word (some next_word) content = do
      text ← string_value next_word
      request ← p.pack (codes "give_next_word") null
      ok (record { result = pos 0; content = content ++ text ++ codes " "; sent = some request })

    -- The buffer after a `recv` of some bytes, its terminator and what `deserialize_json` makes of it.
    unfoldable pub read_response : Bytes → Run (Option Json)
    read_response received = do
      let buf = take buffer_size received
      in_bounds (ltb (length buf) buffer_size)
      answer_of (deserialize_json m buf)

    -- With the bytes that can be received, none for an error.
    unfoldable pub handle_file_download : Option Bytes → Bytes → Run Downloaded
    handle_file_download none content =
        ok (record { result = negsuc 0; content = content; sent = none })
    handle_file_download (some []) content =
        ok (record { result = negsuc 0; content = content; sent = none })
    handle_file_download (some (b ∷ bytes)) content = do
      word_response ← read_response (b ∷ bytes)
      response ← access word_response
      body ← access (json_get_property response (codes "body"))
      write_word (json_get_property body (codes "next_word")) content

    -- Asking for a file, where the file to be written could be opened or not: the result, and what is
    -- sent to begin the transfer, where words are then waited for.
    unfoldable pub begin_file_download : Remote → ℤ → Bytes → Bytes → Bool → Run (ℤ × Option Json)
    begin_file_download remote sock ip filename false = ok (negsuc 0, none)
    begin_file_download remote sock ip filename true = do
      request_payload ←
          json_set_property m create_json_object (codes "filename") (create_json_string filename)
      request ← p.pack (codes "get_file") request_payload
      answer ← remote.send_receive_sock sock ip request
      response ← access answer.0
      text ← string_value response
      let begun = p.pack (codes "begin_transfer") null >>= λ begin. ok (pos 0, some begin)
      if str_eq text (codes "begin_file_response") then begun else ok (pos 0, none)

    -- Both sides in turn, until the downloading side ends: the bytes of the file. `receives` is the
    -- bytes that are received of what is sent. A round for each word and one for the end are
    -- enough.
    unfoldable pub transfer : (Json → Bytes) → ℕ → List Bytes → Bytes → Run Bytes
    transfer receives zero words content = fault
    transfer receives (suc rounds) words content = do
      uploaded ← handle_file_upload words
      downloaded ← handle_file_download (some (receives uploaded.sent)) content
      let rest = transfer receives rounds uploaded.words downloaded.content
      if is_neg downloaded.result then ok downloaded.content else rest
