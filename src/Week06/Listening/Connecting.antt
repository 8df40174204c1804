-- ===== src/Week06/Listening/Connecting.antt =====
-- `connect_plain` of week06/src/requests.c, which is written as in week06d.
use networks_course.Prelude.{
  ℕ, ◌≡◌, refl, ◌∙◌, Bytes, ℤ, Option, none, some, [], ◌∷◌, ◌++◌, inl, inr, Bool-cases, is_neg,
}
use networks_course.Sockets.{call_socket, History, System}
use networks_course.Sockets.Held.{held, IsFresh}
use networks_course.Week06d.Requests
use networks_course.Week06d.Requests.Closing.{Connects, connect_to_node_plain-Connects}
use networks_course.Week06.Listening.{give_up, connect_sock, connect_plain}

connect_sock-same :
    (system : System) (sock : ℤ) (port : ℕ) (address : Option Bytes) (h : History)
    → connect_sock system sock port address h ≡ Requests.connect_sock system sock port address h
unfolding connect_sock give_up Requests.connect_sock Requests.give_up
connect_sock-same system sock port none h = refl
connect_sock-same system sock port (some address) h = refl

connect_plain-same :
    (system : System) (ip : Bytes) (port : ℕ) (h : History)
    → connect_plain system ip port h ≡ Requests.connect_to_node_plain system ip port h
unfolding connect_plain Requests.connect_to_node_plain
connect_plain-same system ip port h =
    let sock = system.answer h call_socket in
    let made = h ++ record { call = call_socket; answer = sock } ∷ [] in
    elim (Bool-cases (is_neg sock)) [
      | inl e ↦ rw e refl
      | inr e ↦ rw e (connect_sock-same system sock port (system.gethostbyname made ip) made)
    ]

-- Connecting closes the socket on each of its errors, and leaves open the socket that it returns.
connect_plain-Connects :
    (system : System) (fresh : IsFresh system) (ip : Bytes) (port : ℕ) (h : History)
    → Connects system fresh (connect_plain system ip port) h (held h)
connect_plain-Connects system fresh ip port h =
    let c = connect_to_node_plain-Connects system fresh ip port h in
    record {
      settles = record {
        result = c.settles.result;
        history = c.settles.history;
        returns = connect_plain-same system ip port h ∙ c.settles.returns;
        held_then = c.settles.held_then;
      };
      absent = c.absent;
    }
