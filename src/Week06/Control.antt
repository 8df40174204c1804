-- ===== src/Week06/Control.antt =====
-- week06/src/control.c: the commands on the control socket. What connecting to a node answers is a
-- parameter; the download that a command begins is part of its outcome.
pub mod Uploads
use networks_course.Prelude.{
  Bytes, ℤ, pos, negsuc, is_neg, List, [], ◌∷◌, Option, none, some, Run, ok, fault, ◌>>=◌, ◌>>◌,
  access, in_bounds, length, codes, str_eq, c_str, ltb, leb, if◌then◌else◌,
}
use networks_course.Week06.Machine.{Machine}
use networks_course.Week06.Known.{Node, KnownFile, find_known_file}
use networks_course.Week06.Files.{buffer_size, MyFile, add_my_file, get_my_files}
use networks_course.Week06.Json.Value.{Json, string}
use networks_course.Week06.Json.Interface.{
  create_json_object, create_json_string, json_get_property, create_json_array, json_array_append,
  json_set_property,
}
use networks_course.Week06.Json.Serializer.{serialize_json}
use networks_course.Week06.Json.Parser.{
  Parse, deserialize_json, parsed, rejected, faulted, out_of_fuel,
}
use networks_course.Week06.Serializers.{string_value, property}
use networks_course.Week06.Handlers.{Tables}

-- What `begin_file_download` is given.
pub record Download : Type 0 where
  pub sock : ℤ
  pub ip : Bytes
  pub filename : Bytes
  pub path : Bytes

-- What a command leaves: its response, the tables, and the download that it began.
pub record Answered : Type 0 where
  pub response : Option Json
  pub tables : Tables
  pub download : Option Download

abbrev pub answered : Tables → Json → Answered
answered tables response = record { response = some response; tables = tables; download = none }

-- The string of a value that is one.
unfoldable pub text_of : Option Json → Option Bytes
text_of (some (string text)) = some text
text_of _ = none

abbrev pub both : Option Bytes → Option Bytes → Option (Bytes × Bytes)
both (some filename) (some path) = some (filename, path)
both _ _ = none

-- The `filename` and the `path` of a command, unless one is missing or no string.
unfoldable pub file_of : Json → Option (Bytes × Bytes)
file_of payload =
    both (text_of (json_get_property payload (codes "filename")))
      (text_of (json_get_property payload (codes "path")))

-- What `deserialize_json` answers, null for a text that is no value. It does not run out of fuel.
unfoldable pub answer_of : Parse → Run (Option Json)
answer_of (parsed value tokens) = ok (some value)
answer_of rejected = ok none
answer_of faulted = fault
answer_of out_of_fuel = fault

module _ (m : Machine) where
  unfoldable pub with_status : Bytes → Run Json
  with_status status =
      json_set_property m create_json_object (codes "status") (create_json_string status)

  -- An error with a message.
  unfoldable pub with_error : Bytes → Run Json
  with_error message = do
    response ← with_status (codes "error")
    json_set_property m response (codes "message") (create_json_string message)

  unfoldable pub add_file : Option (Bytes × Bytes) → Tables → Run Answered
  add_file none tables = do response ← with_status (codes "error"); ok (answered tables response)
  add_file (some (filename, path)) tables = do
    response ← with_status (codes "ok")
    my_files ← add_my_file m filename path tables.my_files
    ok (answered (record tables { my_files = my_files }) response)

  unfoldable pub handle_control_add_file : Option Json → Tables → Run Answered
  handle_control_add_file payload tables = do
    value ← access payload
    add_file (file_of value) tables

  -- The loop of `handle_control_my_files`.
  unfoldable pub list_my_files : List MyFile → Json → Run Json
  list_my_files [] response = ok response
  list_my_files (my_file ∷ files) response = do
    located ←
        json_set_property m create_json_object (codes "path") (create_json_string my_file.path)
    file ← json_set_property m located (codes "filename") (create_json_string my_file.filename)
    response' ← json_array_append m response file
    list_my_files files response'

  unfoldable pub handle_control_my_files : Tables → Run Answered
  handle_control_my_files tables = do
    let my_files = get_my_files tables.my_files
    in_bounds (leb (length my_files) buffer_size)
    response ← list_my_files my_files (create_json_array m)
    ok (answered tables response)

  module _ (connect_to_node : Node → ℤ) (unset : Node) where
    unfoldable pub download_from : Option KnownFile → Bytes → Bytes → Tables → Run Answered
    download_from none filename path tables = do
      response ← with_error (codes "no such file")
      ok (answered tables response)
    download_from (some file) filename path tables =
        let sock = connect_to_node file.node in
        let failed =
          with_error (codes "connection failed") >>= λ response. ok (answered tables response) in
        if is_neg sock
        then failed
        else ok (record {
          response = none;
          tables = tables;
          download =
              some (record { sock = sock; ip = file.node.ip; filename = filename; path = path });
        })

    unfoldable pub get_file : Option (Bytes × Bytes) → Tables → Run Answered
    get_file none tables = do
      response ← with_error (codes "format error")
      ok (answered tables response)
    get_file (some (filename, path)) tables = do
      file ← find_known_file unset filename tables.known_files
      download_from file filename path tables

    unfoldable pub handle_control_get_file : Option Json → Tables → Run Answered
    handle_control_get_file payload tables = do
      value ← access payload
      get_file (file_of value) tables

    unfoldable pub handle_control_socket_cmd : Bytes → Option Json → Tables → Run Answered
    handle_control_socket_cmd type payload tables =
        if str_eq type (codes "add_file")
        then handle_control_add_file payload tables
        else if str_eq type (codes "my_files")
        then handle_control_my_files tables
        else if str_eq type (codes "get_file")
        then handle_control_get_file payload tables
        else ok (record { response = none; tables = tables; download = none })

    -- What is copied to the buffer for the answer.
    unfoldable pub print_response : Option Json → Run Bytes
    print_response none = ok []
    print_response (some response) = do
      text ← serialize_json m response
      in_bounds (ltb (length text) buffer_size)
      ok text

    -- The answer of `deserialize_json`, null for none, and the bytes that are sent back.
    unfoldable pub handle_request : Option Json → Tables → Run (Bytes × Answered)
    handle_request none tables = ok (
      codes "Can't understand you\n",
      record { response = none; tables = tables; download = none },
    )
    handle_request (some request) tables = do
      type ← property (some request) (codes "type") >>= string_value
      outcome ← handle_control_socket_cmd type (json_get_property request (codes "payload")) tables
      text ← print_response outcome.response
      ok (text, outcome)

    unfoldable pub handle_control_socket_data : Bytes → Tables → Run (Bytes × Answered)
    handle_control_socket_data cmd tables =
        answer_of (deserialize_json m (c_str cmd)) >>= λ request. handle_request request tables

    -- The bytes received, none for an error: then the byte in front of the buffer is cleared. The
    -- result is what the event loop is told.
    unfoldable pub control_socket_handle_client : Option Bytes → Tables → Run (ℤ × Bytes × Answered)
    control_socket_handle_client none tables = fault
    control_socket_handle_client (some []) tables =
        ok (negsuc 0, [], record { response = none; tables = tables; download = none })
    control_socket_handle_client (some (byte ∷ bytes)) tables = do
      in_bounds (ltb (length (byte ∷ bytes)) buffer_size)
      (text, outcome) ← handle_control_socket_data (byte ∷ bytes) tables
      ok (pos 0, text, outcome)
