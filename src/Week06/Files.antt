-- ===== src/Week06/Files.antt =====
-- week06/src/my_files.c: the files of this node, in a table by name.
use networks_course.Prelude.{
  ℕ, Bytes, ℤ, Bool, ◌||◌, List, [], ◌∷◌, ◌++◌, Option, none, some, Run, ok, fault, ◌>>=◌, ◌>>◌,
  in_bounds, length, codes, str_eq, ltb, if◌then◌else◌,
}
use networks_course.Hash.{polynomial_hash, hashmap_entries}
use networks_course.Week06.Machine.{Machine}
use networks_course.Week06.Hashmap.{
  Hashmap, hashmap_create, hashmap_get_entries, hashmap_look_up_element, hashmap_add_element,
}
use networks_course.Week06.Known.{known_filename_len}

abbrev pub buffer_size : ℕ
buffer_size = 20480

abbrev pub my_path_len : ℕ
my_path_len = 500

-- `struct my_file`
pub record MyFile : Type 0 where
  pub filename : Bytes
  pub path : Bytes

unfoldable pub my_file_hash_fn : MyFile → ℤ
my_file_hash_fn element = polynomial_hash element.filename 257 hashmap_entries

unfoldable pub my_file_compare_fn : MyFile → MyFile → Bool
my_file_compare_fn a b = str_eq a.filename b.filename

unfoldable pub init_my_files_hashmap : Hashmap MyFile
init_my_files_hashmap = hashmap_create hashmap_entries

unfoldable pub add_my_file : Machine → Bytes → Bytes → Hashmap MyFile → Run (Hashmap MyFile)
add_my_file m filename path table = do
  in_bounds (ltb (length filename) known_filename_len)
  in_bounds (ltb (length path) my_path_len)
  hashmap_add_element my_file_hash_fn (λ stored el. m.entry_reads_as stored.filename el.filename)
      (record { filename = filename; path = path }) table

unfoldable pub find_my_file : Bytes → Hashmap MyFile → Run (Option MyFile)
find_my_file filename table = do
  in_bounds (ltb (length filename) known_filename_len)
  ok (hashmap_look_up_element my_file_compare_fn (record { filename = filename; path = [] }) table)

-- The loop over the names in a directory, which are shorter than `full_path` with the name of the
-- directory in front.
unfoldable pub load_names : Machine → Bytes → List Bytes → Hashmap MyFile → Run (Hashmap MyFile)
load_names m dirname [] table = ok table
load_names m dirname (d_name ∷ names) table =
    let full_path = dirname ++ 47 ∷ d_name in
    let added =
      in_bounds (ltb (length full_path) buffer_size) >> add_my_file m d_name full_path table in
    (if str_eq d_name (codes ".") || str_eq d_name (codes "..") then ok table else added)
    >>= load_names m dirname names

-- `none` for a directory that cannot be opened; `closedir` is then given a null pointer.
unfoldable pub load_my_files_from :
    Machine → Bytes → Option (List Bytes) → Hashmap MyFile → Run (Hashmap MyFile)
load_my_files_from m dirname none table = fault
load_my_files_from m dirname (some names) table = load_names m dirname names table

unfoldable pub get_my_files : Hashmap MyFile → List MyFile
get_my_files table = hashmap_get_entries table
