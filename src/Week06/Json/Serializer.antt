-- ===== src/Week06/Json/Serializer.antt =====
-- `serialize_json` of week06/src/ds/json/parser.c. The buffer is written from its start on, so it is
-- overrun when the whole text is too long for it.
use networks_course.Prelude.{
  ℕ, zero, suc, ◌+◌, ◌/◌, ◌%◌, Bytes, ℤ, pos, negsuc, int_eq, List, [], ◌∷◌, ◌++◌, Run, ok, fault,
  ◌>>=◌, ◌>>◌, in_bounds, length, codes, c_str, ltb, if◌then◌else◌,
}
use networks_course.Week06.Machine.{Machine}
use networks_course.Week06.Json.Value.{
  Json, null, boolean, integer, string, array, object, Slots, no_slots, empty_slot, slot, Chain,
  chain_end, entry, Table, no_buckets, bucket,
}
use networks_course.Week06.Json.Interface.{json_object_to_array}

-- `%d` of an `int` that is not negative: at most ten digits.
unfoldable pub decimal : ℕ → ℕ → Bytes
decimal zero n = []
decimal (suc fuel) n =
    let front = decimal fuel (n / 10) in
    if ltb n 10 then (48 + n) ∷ [] else front ++ (48 + n % 10) ∷ []

unfoldable pub print_int : ℤ → Bytes
print_int (pos n) = decimal 10 n
print_int (negsuc n) = 45 ∷ decimal 10 (suc n)

unfoldable pub quoted : Bytes → Bytes
quoted text = 34 ∷ text ++ 34 ∷ []

-- Elements with a comma after each but the last.
unfoldable pub join : List Bytes → Bytes
join [] = []
join (text ∷ []) = text
join (text ∷ next ∷ rest) = text ++ 44 ∷ join (next ∷ rest)

module _ (m : Machine) where
  unfoldable mutual
    pub serialize_json_at : Json → Run Bytes
    serialize_json_at null = ok (codes "null")
    serialize_json_at (boolean b) = ok (if int_eq b (pos 0) then codes "false" else codes "true")
    serialize_json_at (integer n) = ok (print_int n)
    serialize_json_at (string text) = ok (quoted text)
    serialize_json_at (array s n c) = do
      texts ← serialize_slots s n
      ok (91 ∷ join texts ++ 93 ∷ [])
    serialize_json_at (object t) = do
      pairs ← json_object_to_array m (object t)
      texts ← serialize_table t
      ok (123 ∷ join texts ++ 125 ∷ [])

    -- The first `n` elements; an unset one is a null pointer.
    pub serialize_slots : Slots → ℕ → Run (List Bytes)
    serialize_slots s zero = ok []
    serialize_slots no_slots (suc n) = fault
    serialize_slots (empty_slot s) (suc n) = fault
    serialize_slots (slot v s) (suc n) =
        serialize_json_at v >>= λ text. serialize_slots s n >>= λ texts. ok (text ∷ texts)

    pub serialize_chain : Chain → Run (List Bytes)
    serialize_chain chain_end = ok []
    serialize_chain (entry k v c) = serialize_json_at v >>= λ text.
        serialize_chain c >>= λ texts. ok ((quoted (c_str k) ++ 58 ∷ text) ∷ texts)

    pub serialize_table : Table → Run (List Bytes)
    serialize_table no_buckets = ok []
    serialize_table (bucket c t) =
        serialize_chain c >>= λ texts. serialize_table t >>= λ texts'. ok (texts ++ texts')

  unfoldable pub serialize_json : Json → Run Bytes
  serialize_json data' = do
    text ← serialize_json_at data'
    in_bounds (ltb (length text) (m.usable 102400))
    ok text
