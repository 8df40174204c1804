-- ===== src/Week06/Logging.antt =====
-- week06/src/logging.c and week06d/src/logging.c, which are the same: the level that is logged.
use networks_course.Prelude.{
  ℕ, zero, suc, ◌≡◌, refl, Bytes, List, [], ◌∷◌, Option, none, some, Run, ok, fault, ◌>>=◌, read,
  codes, str_eq, if◌then◌else◌,
}

abbrev pub level_names : List Bytes
level_names = codes "info" ∷ codes "debug" ∷ []

-- The size of the array of two pointers, in bytes.
abbrev pub sizeof_level_names : ℕ
sizeof_level_names = 16

-- The loop from `i` on, `n` rounds: the level set, or none for the answer -1.
unfoldable pub find_level : ℕ → ℕ → Bytes → Run (Option ℕ)
find_level zero i log_level = ok none
find_level (suc n) i log_level =
    let rest = find_level n (suc i) log_level in
    read level_names i >>= λ name. (if str_eq log_level name then ok (some i) else rest)

unfoldable pub set_log_level : Bytes → Run (Option ℕ)
set_log_level log_level = find_level sizeof_level_names 0 log_level

-- The level is set to 0 for "info" and to 1 for "debug"; for every other name, the array of names is
-- read behind its end, and -1 is never returned.
pub set_log_level-cases :
    (log_level : Bytes)
    → set_log_level log_level ≡ (
        if str_eq log_level (codes "info")
        then ok (some 0)
        else (if str_eq log_level (codes "debug") then ok (some 1) else fault))
unfolding set_log_level find_level str_eq read
set_log_level-cases log_level = refl
