-- ===== src/Week06d/Main.antt =====
-- The command line of week06d/src/main.c. The arguments are those that are left from `argv` on.
pub mod Options
use networks_course.Prelude.{
  ℕ, Bytes, ℤ, Bool, true, false, ◌&&◌, ◌||◌, List, [], ◌∷◌, Option, none, some, Run, ok, ◌>>=◌,
  ◌>>◌, in_bounds, length, codes, str_eq, ltb, if◌then◌else◌,
}
use networks_course.Week06d.Node.{node_name_len, node_ip_len}

-- What `parse_args` sets: the globals, the buffers of `main` and its own flags. A buffer that was not
-- written to is `none`.
pub record Arguments : Type 0 where
  pub node_name : Bytes
  pub listen_port : ℕ
  pub ping_interval : ℤ
  pub bootstrap_addr : Option Bytes
  pub log_level : Bytes
  pub got_listen_ip : Bool
  pub got_name : Bool

-- `strcpy` into a buffer of `n` bytes.
unfoldable pub copy : ℕ → Bytes → Run Bytes
copy n text = in_bounds (ltb (length text) n) >> ok text

unfoldable pub store_bootstrap : Bytes → Arguments → Run Arguments
store_bootstrap value a =
    copy node_ip_len value >>= λ text. ok (record a { bootstrap_addr = some text })

unfoldable pub store_log_level : Bytes → Arguments → Run Arguments
store_log_level value a = copy 10 value >>= λ text. ok (record a { log_level = text })

unfoldable pub store_name : Bytes → Arguments → Run Arguments
store_name value a =
    copy node_name_len value >>= λ text. ok (record a { node_name = text; got_name = true })

-- `atoi`, of the library, is a parameter; `unsigned short` keeps 16 bits.
module _ (atoi : Bytes → ℤ) (to_port : ℤ → ℕ) where
  unfoldable pub store_listen : Bytes → Arguments → Run Arguments
  store_listen value a = ok (record a { listen_port = to_port (atoi value); got_listen_ip = true })

  unfoldable pub store_ping : Bytes → Arguments → Run Arguments
  store_ping value a = ok (record a { ping_interval = atoi value })

  -- What the name of an option does with the argument behind it; none for other names.
  unfoldable pub option_action : Bytes → Option (Bytes → Arguments → Run Arguments)
  option_action name =
      if str_eq name (codes "--listen")
      then some store_listen
      else if str_eq name (codes "--bootstrap")
      then some store_bootstrap
      else if str_eq name (codes "-l")
      then some store_log_level
      else if str_eq name (codes "--name")
      then some store_name
      else if str_eq name (codes "-p") || str_eq name (codes "--ping")
      then some store_ping
      else none

  -- The loop: `none` for -1.
  unfoldable pub parse_options : List Bytes → Arguments → Run (Option Arguments)
  parse_options [] a = ok (if a.got_listen_ip && a.got_name then some a else none)
  parse_options (name ∷ []) a = ok none
  parse_options (name ∷ value ∷ rest) a = elim (option_action name) [
    | some action ↦ action value a >>= parse_options rest
    | none ↦ ok none
  ]

  unfoldable pub parse_args : List Bytes → Arguments → Run (Option Arguments)
  parse_args [] a = ok none
  parse_args (arg ∷ rest) a =
      parse_options (arg ∷ rest)
        (record a { log_level = codes "info"; got_listen_ip = false; got_name = false })
