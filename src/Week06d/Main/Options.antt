-- ===== src/Week06d/Main/Options.antt =====
-- What week06d/src/main.c makes of its command line.
use networks_course.Prelude.{
  ℕ, Bytes, ℤ, Bool, true, ◌&&◌, List, [], ◌∷◌, Option, none, some, Run, ok, fault, length, codes,
  ltb, if◌then◌else◌,
}
use networks_course.Week06d.Main.{Arguments}

-- The options of the usage text.
pub data Setting : Type 0 where
  listen : Bytes → Setting
  bootstrap : Bytes → Setting
  level : Bytes → Setting
  name : Bytes → Setting
  ping : Bytes → Setting

-- Settings as they are written on the command line.
abbrev pub write_settings : List Setting → List Bytes
write_settings [] = []
write_settings (listen v ∷ ss) = codes "--listen" ∷ v ∷ write_settings ss
write_settings (bootstrap v ∷ ss) = codes "--bootstrap" ∷ v ∷ write_settings ss
write_settings (level v ∷ ss) = codes "-l" ∷ v ∷ write_settings ss
write_settings (name v ∷ ss) = codes "--name" ∷ v ∷ write_settings ss
write_settings (ping v ∷ ss) = codes "--ping" ∷ v ∷ write_settings ss

-- What each setting gives its argument to.
abbrev pub listen_of : Setting → Option Bytes
listen_of (listen v) = some v
listen_of _ = none

abbrev pub bootstrap_of : Setting → Option Bytes
bootstrap_of (bootstrap v) = some v
bootstrap_of _ = none

abbrev pub level_of : Setting → Option Bytes
level_of (level v) = some v
level_of _ = none

abbrev pub name_of : Setting → Option Bytes
name_of (name v) = some v
name_of _ = none

abbrev pub ping_of : Setting → Option Bytes
ping_of (ping v) = some v
ping_of _ = none

-- The argument of the last of the settings that give one.
unfoldable pub last : (Setting → Option Bytes) → List Setting → Option Bytes
last given [] = none
last given (s ∷ ss) = elim (last given ss) [ some v ↦ some v | none ↦ given s ]

-- What an argument means, and what was there before when there is none.
unfoldable pub from {ℓ} : {A : Type ℓ} → Option Bytes → (Bytes → A) → A → A
from (some v) meaning before = meaning v
from none meaning before = before

-- Whether the text of a setting has room in its buffer: 19 bytes for an address and a name, 9 for a
-- level.
abbrev pub fits : Setting → Bool
fits (bootstrap v) = ltb (length v) 20
fits (name v) = ltb (length v) 20
fits (level v) = ltb (length v) 10
fits _ = true

abbrev pub all_fit : List Setting → Bool
all_fit [] = true
all_fit (s ∷ ss) = fits s && all_fit ss

module _ (atoi : Bytes → ℤ) (to_port : ℤ → ℕ) where
  -- The arguments that settings amount to: each field has the last argument given for it.
  unfoldable pub settled : List Setting → Arguments → Arguments
  settled ss a = record {
    node_name = from (last name_of ss) (λ v. v) a.node_name;
    listen_port = from (last listen_of ss) (λ v. to_port (atoi v)) a.listen_port;
    ping_interval = from (last ping_of ss) atoi a.ping_interval;
    bootstrap_addr = from (last bootstrap_of ss) some a.bootstrap_addr;
    log_level = from (last level_of ss) (λ v. v) a.log_level;
    got_listen_ip = from (last listen_of ss) (λ v. true) a.got_listen_ip;
    got_name = from (last name_of ss) (λ v. true) a.got_name;
  }

  -- The answer at the end of the options: -1 unless a port and a name were given.
  abbrev pub answered : Arguments → Option Arguments
  answered a = if a.got_listen_ip && a.got_name then some a else none

  abbrev pub outcome : List Setting → Arguments → Run (Option Arguments)
  outcome ss a = if all_fit ss then ok (answered (settled ss a)) else fault
