-- ===== src/Week06/FileTransfer/Words.antt =====
-- What arrives of a file that week06/src/file_transfer.c sends.
use networks_course.Prelude.{◌<◌, ◌≡◌, Bytes, pos, List, [], ◌∷◌, ◌++◌, ok, length, codes, c_str}
use networks_course.Week06.Machine.{Machine}
use networks_course.Week06.Json.Value.{Json, boolean}
use networks_course.Week06.Json.Interface.{
  create_json_object, create_json_string, json_set_property,
}
use networks_course.Week06.Json.Serializer.{serialize_json}
use networks_course.Week06.Json.Tokenizer.Texts.{IsPlain}
use networks_course.Week06.Json.RoundTrip.Made.{Made}
use networks_course.Week06.Files.{buffer_size}

-- The words as they are written: each with a space behind it.
abbrev pub spaced : List Bytes → Bytes
spaced [] = []
spaced (word ∷ words) = word ++ (codes " " ++ spaced words)

-- What is sent is received as the text of a message that has it as its body, with less bytes than
-- the buffer.
pub record Arrives (m : Machine) (receives : Json → Bytes) (payload : Json) : Type 0 where
  pub message : Json
  pub framed : json_set_property m create_json_object (codes "body") payload ≡ ok message
  pub written : serialize_json m message ≡ ok (receives payload)
  pub nonempty : 0 < length (receives payload)
  pub short : length (receives payload) < buffer_size

-- A word that fits the buffer, without quotes and backslashes, and is sent and received.
pub record IsSent (m : Machine) (receives : Json → Bytes) (word : Bytes) : Type 0 where
  pub is_text : c_str word ≡ word
  pub fits : length word < buffer_size
  pub is_plain : IsPlain word
  pub payload : Json
  pub packed :
      json_set_property m create_json_object (codes "next_word") (create_json_string word)
      ≡ ok payload
  pub arrives : Arrives m receives payload

abbrev pub AllSent : Machine → (Json → Bytes) → List Bytes → Type 0
AllSent m receives [] = Unit {0}
AllSent m receives (word ∷ words) = IsSent m receives word × AllSent m receives words

-- The end of the file is sent and received.
pub record EndSent (m : Machine) (receives : Json → Bytes) : Type 0 where
  pub payload : Json
  pub packed :
      json_set_property m create_json_object (codes "end_of_transmission") (boolean (pos 1))
      ≡ ok payload
  pub arrives : Arrives m receives payload
