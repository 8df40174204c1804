-- ===== src/Week06d/Start/Joined.antt =====
-- A node of week06d that is started with the address of another one.
use networks_course.Prelude.{
  ℕ, ◌≡◌, ◌≢◌, refl, ap, Bytes, ℤ, is_neg, false, List, [], ◌∷◌, ◌++◌, some, ok, ==_refl, ==_ne,
}
use networks_course.Sockets.{History, System}
use networks_course.Week06.Logging.{set_log_level}
use networks_course.Week06d.Directory.{Directory, init_known_nodes_hashmap}
use networks_course.Week06d.EventLoop.{EventLoop}
use networks_course.Week06d.Main.{Arguments, parse_args}
use networks_course.Week06d.Requests.{bootstrap}
use networks_course.Week06d.Server.Listening.{Callback, create_master_socket, server_main}
use networks_course.Week06d.Server.Clients.{polled, first_loop, start_loop-first_loop}
use networks_course.Week06d.Start.{
  drop_delimiters, token_of, some_token, strtok, Leftovers, join_network, start_node, start, main,
}

abbrev pub HasNone : ℕ → Bytes → Type 0
HasNone delimiter [] = Unit {0}
HasNone delimiter (c ∷ cs) = (c ≢ delimiter) × HasNone delimiter cs

token_of-HasNone :
    (delimiter : ℕ) (a b : Bytes)
    → HasNone delimiter a
    → token_of delimiter (a ++ delimiter ∷ b) ≡ (a, b)
unfolding token_of
token_of-HasNone delimiter [] b h = rw (==_refl delimiter) refl
token_of-HasNone delimiter (c ∷ a) b (ne, h) =
    rw (==_ne c delimiter ne, token_of-HasNone delimiter a b h) refl

token_of-last : (delimiter : ℕ) (a : Bytes) → HasNone delimiter a → token_of delimiter a ≡ (a, [])
unfolding token_of
token_of-last delimiter [] h = refl
token_of-last delimiter (c ∷ a) (ne, h) =
    rw (==_ne c delimiter ne, token_of-last delimiter a h) refl

strtok-first :
    (delimiter c : ℕ) (a b : Bytes)
    → HasNone delimiter (c ∷ a)
    → strtok delimiter ((c ∷ a) ++ delimiter ∷ b) ≡ some (c ∷ a, b)
unfolding strtok drop_delimiters some_token
strtok-first delimiter c a b h =
    rw (==_ne c delimiter h.0) (ap some (token_of-HasNone delimiter (c ∷ a) b h))

strtok-last :
    (delimiter c : ℕ) (a : Bytes)
    → HasNone delimiter (c ∷ a)
    → strtok delimiter (c ∷ a) ≡ some (c ∷ a, [])
unfolding strtok drop_delimiters some_token
strtok-last delimiter c a h =
    rw (==_ne c delimiter h.0) (ap some (token_of-last delimiter (c ∷ a) h))

-- The node that is started knows whom the bootstrap finds at the address and port that it was
-- given, separated by a colon, and polls its own socket. Assumed is that its options are read, that
-- the bootstrap returns and that its socket can be opened.
pub main-Joined :
    (system : System) (atoi : Bytes → ℤ) (to_port : ℤ → ℕ) (leftovers : Leftovers)
    (argv : List Bytes) (globals arguments : Arguments) (now : ℤ) (level i p : ℕ) (ip port : Bytes)
    (known_nodes : Directory) (h h1 h2 : History) (master : ℤ)
    → parse_args atoi to_port argv globals ≡ ok (some arguments)
    → set_log_level arguments.log_level ≡ ok (some level)
    → arguments.bootstrap_addr ≡ some ((i ∷ ip) ++ 58 ∷ (p ∷ port))
    → HasNone 58 (i ∷ ip)
    → HasNone 58 (p ∷ port)
    → bootstrap system
        (record { node_name = arguments.node_name; listen_port = arguments.listen_port })
        leftovers.request
        leftovers.answer
        leftovers.hello
        leftovers.list
        init_known_nodes_hashmap
        (i ∷ ip)
        (to_port (atoi (p ∷ port)))
        h
      ≡ ok (known_nodes, h1)
    → create_master_socket system arguments.listen_port h1 ≡ ok (master, h2)
    → is_neg master ≡ false
    → (loop : EventLoop Callback Bytes) × (main system atoi to_port leftovers argv globals now h
        ≡ ok (some (known_nodes, loop), h2))
      × (polled loop ≡ master ∷ [])
unfolding main start start_node join_network server_main
main-Joined system atoi to_port leftovers argv globals arguments now level i p ip port known_nodes h
      h1 h2 master parsed leveled address ip_text port_text joined opened valid =
    (
      first_loop arguments.ping_interval now master,
      rw
          (
            parsed,
            leveled,
            address,
            strtok-first 58 i ip (p ∷ port) ip_text,
            strtok-last 58 p port port_text,
            joined,
            opened,
            valid,
            start_loop-first_loop system arguments.ping_interval now master h2,
          )
          refl,
      refl,
    )
