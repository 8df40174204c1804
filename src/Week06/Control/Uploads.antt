-- ===== src/Week06/Control/Uploads.antt =====
-- A file that is added by the commands of week06/src/control.c is the one that the handler of
-- week06/src/handlers.c uploads.
use networks_course.Prelude.{
  ◌≡◌, refl, sym, ap, ◌∙◌, Bytes, ℤ, pos, [], none, some, ok, ok-injective, >>=-eq-ok, >>-eq-ok,
  length, codes, ltb, str_eq_refl,
}
use networks_course.Week06.Machine.{Machine, Distinct}
use networks_course.Week06.Hashmap.{Hashmap}
use networks_course.Week06.Hashmap.Keys.{hashmap_add_element-Added, look_up-set_new}
use networks_course.Week06.Known.{known_filename_len}
use networks_course.Week06.Files.{
  my_path_len, MyFile, my_file_hash_fn, my_file_compare_fn, add_my_file, find_my_file,
}
use networks_course.Week06.Json.Value.{Json, integer, string}
use networks_course.Week06.Json.Interface.{json_get_property}
use networks_course.Week06.Serializers.{string_value, int_value}
use networks_course.Week06.Serializers.RoundTrip.{property-some}
use networks_course.Week06.Handlers.{Packing, Tables, upload_file, get_file_handler}
use networks_course.Week06.Control.{
  Answered, text_of, file_of, with_status, add_file, handle_control_add_file,
}

pub find_my_file-add_my_file :
    (m : Machine)
    → Distinct m
    → (filename path : Bytes) (table table' : Hashmap MyFile)
    → add_my_file m filename path table ≡ ok table'
    → find_my_file filename table ≡ ok none
    → find_my_file filename table' ≡ ok (some (record { filename = filename; path = path }))
unfolding add_my_file find_my_file my_file_compare_fn
find_my_file-add_my_file m d filename path table table' h n =
    let (room, n') = >>-eq-ok (ltb (length filename) known_filename_len) _ n in
    let (_, h') = >>-eq-ok (ltb (length filename) known_filename_len) _ h in
    let (_, h'') = >>-eq-ok (ltb (length path) my_path_len) _ h' in
    let a =
      hashmap_add_element-Added my_file_hash_fn _ (record { filename = filename; path = path })
        table table' (λ x y. d.no_key x.filename y.filename) h'' in
    rw (room, a.table'-eq)
      (ap ok (
        look_up-set_new my_file_compare_fn _ (record { filename = filename; path = path }) table
          a.index a.chain a.found (str_eq_refl filename) (ok-injective n')))

-- The table after the command.
add_file-my_files :
    (m : Machine) (filename path : Bytes) (tables : Tables) (outcome : Answered)
    → add_file m (some (filename, path)) tables ≡ ok outcome
    → add_my_file m filename path tables.my_files ≡ ok outcome.tables.my_files
unfolding add_file
add_file-my_files m filename path tables outcome h =
    let (response, _, k1) = >>=-eq-ok (with_status m (codes "ok")) _ h in
    let (my_files, e, k2) = >>=-eq-ok (add_my_file m filename path tables.my_files) _ k1 in
    e ∙ ap (λ x. ok x.tables.my_files) (ok-injective k2)

file_of-texts :
    (o : Json) (filename path : Bytes)
    → json_get_property o (codes "filename") ≡ some (string filename)
    → json_get_property o (codes "path") ≡ some (string path)
    → file_of o ≡ some (filename, path)
unfolding file_of text_of
file_of-texts o filename path f l = rw (f, l) refl

-- After a name that was no file of this node is added with a path on the control socket, the request of
-- a node for this name begins the upload of that path to the node's socket, changes no table and
-- sends no response. Assumed is that the command returns and that the memory of a table's entry is
-- never taken for a name.
pub get_file_handler-handle_control_add_file :
    (m : Machine) (p : Packing)
    → Distinct m
    → (command payload from : Json) (filename path : Bytes) (tables : Tables) (outcome : Answered)
      (keep_alive socket : ℤ)
    → json_get_property command (codes "filename") ≡ some (string filename)
    → json_get_property command (codes "path") ≡ some (string path)
    → find_my_file filename tables.my_files ≡ ok none
    → handle_control_add_file m (some command) tables ≡ ok outcome
    → json_get_property payload (codes "filename") ≡ some (string filename)
    → json_get_property from (codes "socket") ≡ some (integer socket)
    → get_file_handler m p (some payload) keep_alive (some from) outcome.tables
      ≡ ok (record {
        response = none;
        keep_alive = pos 1;
        tables = outcome.tables;
        sent = [];
        upload = some (socket, path);
      })
unfolding handle_control_add_file get_file_handler upload_file string_value int_value
get_file_handler-handle_control_add_file m p d command payload from filename path tables outcome
      keep_alive socket cf cp n h pf fs =
    let h' : add_file m (some (filename, path)) tables ≡ ok outcome =
      ap (λ x. add_file m x tables) (sym (file_of-texts command filename path cf cp)) ∙ h in
    let found =
      find_my_file-add_my_file m d filename path tables.my_files outcome.tables.my_files
        (add_file-my_files m filename path tables outcome h') n in
    rw (property-some payload (codes "filename") pf, found, property-some from (codes "socket") fs)
      refl
