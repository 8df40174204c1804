-- ===== src/Week06d/Start.antt =====
-- `main` of week06d/src/main.c: what a node does when it is started, up to the loop that it then runs.
pub mod Joined
use mathlib.Core.Option
use networks_course.Prelude.{
  ℕ, Bytes, ℤ, List, [], ◌∷◌, map, Option, none, some, access, c_str, ◌==◌, if◌then◌else◌,
}
use networks_course.Sockets.{System, Calls, ◌>>=◌, give, compute}
use networks_course.Week06.Logging.{set_log_level}
use networks_course.Week06d.Directory.{Directory, init_known_nodes_hashmap}
use networks_course.Week06d.Wire.{Self}
use networks_course.Week06d.EventLoop.{EventLoop}
use networks_course.Week06d.Main.{Arguments, parse_args}
use networks_course.Week06d.Requests.{bootstrap}
use networks_course.Week06d.Server.Listening.{Callback, server_main}

-- `strtok`: delimiters in front are passed over, and the next one ends the token.
unfoldable pub drop_delimiters : ℕ → Bytes → Bytes
drop_delimiters delimiter [] = []
drop_delimiters delimiter (c ∷ cs) =
    let rest = drop_delimiters delimiter cs in if c == delimiter then rest else c ∷ cs

unfoldable pub token_of : ℕ → Bytes → Bytes × Bytes
token_of delimiter [] = ([], [])
token_of delimiter (c ∷ cs) =
    let rest = token_of delimiter cs in if c == delimiter then ([], cs) else (c ∷ rest.0, rest.1)

unfoldable pub some_token : ℕ → Bytes → Option (Bytes × Bytes)
some_token delimiter [] = none
some_token delimiter (c ∷ cs) = some (token_of delimiter (c ∷ cs))

unfoldable pub strtok : ℕ → Bytes → Option (Bytes × Bytes)
strtok delimiter text = some_token delimiter (drop_delimiters delimiter text)

-- What arrays hold that are not written to: those of requests and answers, the ends of the two
-- buffers of the bootstrap, and the address of the node to join.
pub record Leftovers : Type 0 where
  pub request : Bytes
  pub answer : Bytes
  pub hello : Bytes
  pub list : Bytes
  pub address : Bytes

abbrev pub address_text : Leftovers → Option Bytes → Bytes
address_text leftovers none = c_str leftovers.address
address_text leftovers (some text) = text

-- A node that runs: whom it knows, and its event loop.
abbrev pub RunningNode : Type 0
RunningNode = Directory × EventLoop Callback Bytes

module _ (system : System) (atoi : Bytes → ℤ) (to_port : ℤ → ℕ) (leftovers : Leftovers) where
  -- A missing address or port is a null pointer.
  unfoldable pub join_network : Self → Bytes → Calls Directory
  join_network self [] = give init_known_nodes_hashmap
  join_network self (c ∷ cs) = do
    ip ← compute (access (strtok 58 (c ∷ cs)))
    port ← compute (access (strtok 58 (ip.1)))
    bootstrap system self leftovers.request leftovers.answer leftovers.hello leftovers.list
        init_known_nodes_hashmap (ip.0) (to_port (atoi (port.0)))

  -- None for the answer -1.
  unfoldable pub start_node : Arguments → ℤ → Option ℕ → Calls (Option RunningNode)
  start_node arguments now none = give none
  start_node arguments now (some level) = do
    known_nodes ←
        join_network
          (record { node_name = arguments.node_name; listen_port = arguments.listen_port })
          (address_text leftovers arguments.bootstrap_addr)
    loop ← server_main system arguments.listen_port arguments.ping_interval now
    give (Option.map (λ l. (known_nodes, l)) loop)

  unfoldable pub start : ℤ → Option Arguments → Calls (Option RunningNode)
  start now none = give none
  start now (some arguments) =
      compute (set_log_level arguments.log_level) >>= start_node arguments now

  unfoldable pub main : List Bytes → Arguments → ℤ → Calls (Option RunningNode)
  main argv globals now = compute (parse_args atoi to_port argv globals) >>= start now
