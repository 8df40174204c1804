-- ===== src/Week06/Main.antt =====
-- The command line of week06/src/main.c. The arguments are those that are left from `argv` on.
use networks_course.Prelude.{
  ℕ, Bytes, ℤ, Bool, true, false, ◌&&◌, ◌||◌, List, [], ◌∷◌, Option, none, some, Run, ok, ◌>>=◌,
  codes, str_eq, if◌then◌else◌,
}
use networks_course.Week06d.Main.{copy}

-- What `parse_args` sets: the globals, the buffers of `main` and its own flags. A buffer that was not
-- written to is `none`.
pub record Config : Type 0 where
  pub node_name : Bytes
  pub listen_port : ℕ
  pub ping_interval : ℤ
  pub bootstrap_addr : Option Bytes
  pub log_level : Bytes
  pub control_socket_filename : Bytes
  pub load_files_from : Bytes
  pub got_listen_ip : Bool
  pub got_name : Bool

module _ (atoi : Bytes → ℤ) (to_port : ℤ → ℕ) where
  -- What the name of an option does with the argument behind it; none for other names.
  unfoldable pub config_action : Bytes → Option (Bytes → Config → Run Config)
  config_action name =
      if str_eq name (codes "--listen")
      then some (λ v a. ok (record a { listen_port = to_port (atoi v); got_listen_ip = true }))
      else if str_eq name (codes "--bootstrap")
      then some (λ v a. copy 20 v >>= λ text. ok (record a { bootstrap_addr = some text }))
      else if str_eq name (codes "-l")
      then some (λ v a. copy 10 v >>= λ text. ok (record a { log_level = text }))
      else if str_eq name (codes "--name")
      then some (λ v a. copy 20 v >>= λ text. ok (record a { node_name = text; got_name = true }))
      else if str_eq name (codes "-p") || str_eq name (codes "--ping")
      then some (λ v a. ok (record a { ping_interval = atoi v }))
      else if str_eq name (codes "-s") || str_eq name (codes "--control")
      then some (λ v a. copy 104 v >>= λ text. ok (record a { control_socket_filename = text }))
      else if str_eq name (codes "--files")
      then some (λ v a. copy 1000 v >>= λ text. ok (record a { load_files_from = text }))
      else none

  -- The loop: `none` for -1.
  unfoldable pub parse_config : List Bytes → Config → Run (Option Config)
  parse_config [] a = ok (if a.got_listen_ip && a.got_name then some a else none)
  parse_config (name ∷ []) a = ok none
  parse_config (name ∷ value ∷ rest) a = elim (config_action name) [
    | some action ↦ action value a >>= parse_config rest
    | none ↦ ok none
  ]

  unfoldable pub parse_args : List Bytes → Config → Run (Option Config)
  parse_args [] a = ok none
  parse_args (arg ∷ rest) a = parse_config (arg ∷ rest) (record a {
    log_level = codes "info";
    control_socket_filename = codes "/var/run/node.sock";
    got_listen_ip = false;
    got_name = false;
  })
