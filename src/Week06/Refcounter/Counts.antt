-- ===== src/Week06/Refcounter/Counts.antt =====
-- What counting references in week06/src/ds/refcounter.c comes to.
use networks_course.Prelude.{
  ℕ, ◌≡◌, ◌≢◌, ap, ◌∙◌, pos, ◌+ℤ◌, Bool, true, List, [], ◌∷◌, ◌++◌, some, ok, length, get_or, drop,
  arith, ==_ne,
}
use networks_course.Week06.Hashmap.{
  Hashmap, hashmap_get_entries, hashmap_look_up_element, look_up_chain,
}
use networks_course.Week06.Refcounter.{
  RefcounterEntry, refcounter_compare_fn, matches, change_chain, change_value, entry_of, incref,
}

abbrev pub counted : RefcounterEntry → RefcounterEntry
counted v = record v { refs = v.refs +ℤ pos 1 }

matches-ne : (ptr : ℕ) (v : RefcounterEntry) → ptr ≢ v.ptr → matches (entry_of ptr 0) v ≡ true
unfolding matches refcounter_compare_fn
matches-ne ptr v ne = rw (==_ne ptr v.ptr ne)

look_up-first :
    (ptr : ℕ) (table : Hashmap RefcounterEntry) (v : RefcounterEntry) (rest : List RefcounterEntry)
    → hashmap_get_entries table ≡ v ∷ rest
    → ptr ≢ v.ptr
    → hashmap_look_up_element matches (entry_of ptr 0) table ≡ some v
unfolding hashmap_get_entries hashmap_look_up_element look_up_chain
look_up-first ptr [] v rest e ne = absurd (omega (arith, ap length e))
look_up-first ptr ([] ∷ table) v rest e ne = look_up-first ptr table v rest e ne
look_up-first ptr ((w ∷ chain) ∷ table) v rest e ne =
    let wv : w ≡ v = ap (λ l. get_or l 0 w) e in
    rw (
      hashmap_look_up_element,
      look_up_chain,
      matches-ne ptr w (λ q. ne (q ∙ ap (λ x. x.ptr) wv)),
      wv,
    )

change-first :
    (ptr : ℕ) (f : RefcounterEntry → RefcounterEntry) (table : Hashmap RefcounterEntry)
    (v : RefcounterEntry) (rest : List RefcounterEntry)
    → hashmap_get_entries table ≡ v ∷ rest
    → ptr ≢ v.ptr
    → hashmap_get_entries (change_value (entry_of ptr 0) f table) ≡ f v ∷ rest
unfolding hashmap_get_entries change_value change_chain
change-first ptr f [] v rest e ne = absurd (omega (arith, ap length e))
change-first ptr f ([] ∷ table) v rest e ne = change-first ptr f table v rest e ne
change-first ptr f ((w ∷ chain) ∷ table) v rest e ne =
    let wv : w ≡ v = ap (λ l. get_or l 0 w) e in
    let tail : chain ++ hashmap_get_entries table ≡ rest = ap (drop 1) e in
    rw (change_value, change_chain, matches-ne ptr w (λ q. ne (q ∙ ap (λ x. x.ptr) wv)), wv, tail)

-- What `incref` does to the entry of another pointer.
pub record Miscounted (compare_entry : RefcounterEntry → RefcounterEntry → Bool) (ptr : ℕ)
    (v : RefcounterEntry) (rest : List RefcounterEntry) (table : Hashmap RefcounterEntry)
    : Type 0 where
  pub table' : Hashmap RefcounterEntry
  pub incref_ok : incref compare_entry ptr table ≡ ok table'
  pub entries' : hashmap_get_entries table' ≡ counted v ∷ rest

-- When the first pointer of the table is another one than `ptr`, `incref(ptr)` adds 1 to the
-- references of that pointer and records none of `ptr`: every other entry is unchanged and none is
-- added.
pub incref_other :
    (compare_entry : RefcounterEntry → RefcounterEntry → Bool) (ptr : ℕ)
    (table : Hashmap RefcounterEntry) (v : RefcounterEntry) (rest : List RefcounterEntry)
    → hashmap_get_entries table ≡ v ∷ rest
    → ptr ≢ v.ptr
    → Miscounted compare_entry ptr v rest table
unfolding incref
incref_other compare_entry ptr table v rest e ne = record {
  table' = change_value (entry_of ptr 0) counted table;
  incref_ok = rw (incref, look_up-first ptr table v rest e ne);
  entries' = change-first ptr counted table v rest e ne;
}
