-- ===== src/Week06d/Server/Listening.antt =====
-- The sockets of week06d/src/server.c: the one that is listened on, and those of the clients, in
-- the event loop.
use networks_course.Prelude.{
  ℕ, ◌+◌, ◌≡◌, inl, inr, refl, sym, ◌∙◌, Bytes, ℤ, pos, negsuc, is_neg, int_eq, int_eq_iff, true,
  false, List, [], ◌∷◌, ◌++◌, append_assoc, Option, none, some, ok, if◌then◌else◌, Bool-cases,
}
use networks_course.Sockets.{
  Call, Entry, History, System, Calls, ◌>>=◌, give, compute, ask, call_socket, call_setsockopt,
  call_bind_port, call_listen, call_accept,
}
use networks_course.Sockets.Held.{given, held_after, held, held-append, held-call}
use networks_course.Week06d.EventLoop.{
  Slot, PeriodicTask, EventLoop, event_loop_init, event_loop_add_fd, event_loop_add_periodic_task,
}

abbrev pub max_clients : ℕ
max_clients = 1024

-- `POLLIN | POLLHUP | POLLERR`
abbrev pub poll_events : ℕ
poll_events = 25

-- The callbacks that the server registers.
pub data Callback : Type 0 where
  on_client_data : Callback
  on_new_connection : Callback
  on_ping : Callback

-- An element of an array that `calloc` has filled.
abbrev pub no_slot : Slot Callback Bytes
no_slot = record { fd = pos 0; events = 0; revents = 0; callback = on_client_data; args = [] }

abbrev pub no_task : PeriodicTask Callback
no_task = record { callback = on_ping; interval = pos 0; last_done = pos 0 }

module _ (system : System) where
  unfoldable pub listen_sock : ℤ → Calls ℤ
  listen_sock sock = do
    answer ← ask system (call_listen sock max_clients)
    if is_neg answer then give (negsuc 0) else give sock

  unfoldable pub bind_sock : ℤ → ℕ → Calls ℤ
  bind_sock sock listen_port = do
    answer ← ask system (call_bind_port sock listen_port)
    if is_neg answer then give (negsuc 0) else listen_sock sock

  unfoldable pub set_up_sock : ℤ → ℕ → Calls ℤ
  set_up_sock sock listen_port = do
    answer ← ask system (call_setsockopt sock)
    if int_eq answer (pos 0) then bind_sock sock listen_port else give (negsuc 0)

  unfoldable pub create_master_socket : ℕ → Calls ℤ
  create_master_socket listen_port = do
    master_socket ← ask system call_socket
    if is_neg master_socket then give (negsuc 0) else set_up_sock master_socket listen_port

  -- `handle_new_connection`, on a socket that a client has connected to from an address.
  unfoldable pub accept_connection :
      ℤ → Bytes → EventLoop Callback Bytes → Calls (EventLoop Callback Bytes)
  accept_connection sock address loop = do
    client_socket ← ask system (call_accept sock)
    added ← compute (event_loop_add_fd loop client_socket poll_events on_client_data address)
    give (added.0)

  -- `server_main`, up to the loop that it then runs: none for its answer -1. `now` is the time.
  unfoldable pub start_loop : ℤ → ℤ → ℤ → Calls (Option (EventLoop Callback Bytes))
  start_loop ping_interval now master_socket = do
    added ← compute (
        event_loop_add_fd (event_loop_init no_slot no_task (max_clients + 1) 10) master_socket
          poll_events on_new_connection [])
    scheduled ← compute (event_loop_add_periodic_task added.0 on_ping ping_interval now)
    give (some scheduled.0)

  unfoldable pub server_main : ℕ → ℤ → ℤ → Calls (Option (EventLoop Callback Bytes))
  server_main listen_port ping_interval now = do
    master_socket ← create_master_socket listen_port
    if is_neg master_socket then give none else start_loop ping_interval now master_socket

  -- Clients that connect one after the other.
  unfoldable pub accept_connections :
      ℤ → List Bytes → EventLoop Callback Bytes → Calls (EventLoop Callback Bytes)
  accept_connections sock [] loop = give loop
  accept_connections sock (address ∷ addresses) loop =
      accept_connection sock address loop >>= accept_connections sock addresses

abbrev pub called : History → Call → ℤ → History
called h call answer = h ++ record { call = call; answer = answer } ∷ []

-- The calls that lead to each of the four answers, where those before it are no errors.
abbrev pub after_socket : System → History → History
after_socket system h = called h call_socket (system.answer h call_socket)

abbrev pub after_option : System → ℤ → History → History
after_option system sock h =
    called (after_socket system h) (call_setsockopt sock)
      (system.answer (after_socket system h) (call_setsockopt sock))

abbrev pub after_bind : System → ℤ → ℕ → History → History
after_bind system sock listen_port h =
    called (after_option system sock h) (call_bind_port sock listen_port)
      (system.answer (after_option system sock h) (call_bind_port sock listen_port))

-- What an attempt to listen leaves.
pub record Listens (system : System) (listen_port : ℕ) (h : History) : Type 0 where
  pub result : ℤ
  pub history : History
  pub returns : create_master_socket system listen_port h ≡ ok (result, history)
  pub held_then : held history ≡ held h ++ given (system.answer h call_socket)
  pub returned :
      is_neg (system.answer h call_socket) ≡ false
      → system.answer (after_socket system h) (call_setsockopt (system.answer h call_socket))
        ≡ pos 0
      → is_neg (
          system.answer
            (after_option system (system.answer h call_socket) h)
            (call_bind_port (system.answer h call_socket) listen_port))
        ≡ false
      → is_neg (
          system.answer
            (after_bind system (system.answer h call_socket) listen_port h)
            (call_listen (system.answer h call_socket) max_clients))
        ≡ false
      → result ≡ system.answer h call_socket
  pub refused : is_neg result ≡ true → result ≡ negsuc 0
  pub listening :
      is_neg result ≡ false
      → (opt : ℤ) × (bound : ℤ) × (listened : ℤ) × (history
          ≡ h
            ++ record { call = call_socket; answer = result }
              ∷ record { call = call_setsockopt result; answer = opt }
              ∷ record { call = call_bind_port result listen_port; answer = bound }
              ∷ record { call = call_listen result max_clients; answer = listened }
              ∷ [])
        × (opt ≡ pos 0)
        × (is_neg bound ≡ false)
        × (is_neg listened ≡ false)

true-false : true ≡ false → ⊥
true-false h = cc

-- Opening the server's socket returns the socket where none of `socket`, `setsockopt`, `bind` and
-- `listen` answers an error, and -1 otherwise. Where it does not return -1, these are its calls, in
-- this order, on the socket that it returns and the port. A socket that was made stays open, also
-- where -1 is returned.
pub create_master_socket-Listens :
    (system : System) (listen_port : ℕ) (h : History) → Listens system listen_port h
unfolding create_master_socket set_up_sock bind_sock listen_sock held_after
create_master_socket-Listens system listen_port h =
    let sock = system.answer h call_socket in
    let h1 = called h call_socket sock in
    let opt = system.answer h1 (call_setsockopt sock) in
    let h2 = called h1 (call_setsockopt sock) opt in
    let bound = system.answer h2 (call_bind_port sock listen_port) in
    let h3 = called h2 (call_bind_port sock listen_port) bound in
    let listened = system.answer h3 (call_listen sock max_clients) in
    let h4 = called h3 (call_listen sock max_clients) listened in
    let made : held h1 ≡ held h ++ given sock =
      held-append h (record { call = call_socket; answer = sock }) in
    let held2 : held h2 ≡ held h ++ given sock =
      held-call h1 (call_setsockopt sock) opt (λ xs. refl) ∙ made in
    let held3 : held h3 ≡ held h ++ given sock =
      held-call h2 (call_bind_port sock listen_port) bound (λ xs. refl) ∙ held2 in
    let held4 : held h4 ≡ held h ++ given sock =
      held-call h3 (call_listen sock max_clients) listened (λ xs. refl) ∙ held3 in
    elim (Bool-cases (is_neg sock)) [
      | inl e ↦ record {
        result = negsuc 0;
        history = h1;
        returned = λ a b c d. absurd (true-false (sym e ∙ a));
        refused = λ n. refl;
        returns = rw e refl;
        held_then = made;
        listening = λ n. cc;
      }
      | inr e ↦ elim (Bool-cases (int_eq opt (pos 0))) [
        | inr e2 ↦ record {
          result = negsuc 0;
          history = h2;
          returned = λ a b c d. absurd (true-false (sym ((int_eq_iff opt (pos 0)).1 b) ∙ e2));
          refused = λ n. refl;
          returns = rw (e, e2) refl;
          held_then = held2;
          listening = λ n. cc;
        }
        | inl e2 ↦ elim (Bool-cases (is_neg bound)) [
          | inl e3 ↦ record {
            result = negsuc 0;
            history = h3;
            returned = λ a b c d. absurd (true-false (sym e3 ∙ c));
            refused = λ n. refl;
            returns = rw (e, e2, e3) refl;
            held_then = held3;
            listening = λ n. cc;
          }
          | inr e3 ↦ elim (Bool-cases (is_neg listened)) [
            | inl e4 ↦ record {
              result = negsuc 0;
              history = h4;
              returned = λ a b c d. absurd (true-false (sym e4 ∙ d));
              refused = λ n. refl;
              returns = rw (e, e2, e3, e4) refl;
              held_then = held4;
              listening = λ n. cc;
            }
            | inr e4 ↦ record {
              result = sock;
              history = h4;
              returned = λ a b c d. refl;
              refused = λ n. absurd (true-false (sym n ∙ e));
              returns = rw (e, e2, e3, e4) refl;
              held_then = held4;
              listening = λ n. (
                opt,
                bound,
                listened,
                four_calls h _ _ _ _,
                (int_eq_iff opt (pos 0)).0 e2,
                e3,
                e4,
              );
            }
          ]
        ]
      ]
    ]
  where
    four_calls :
        (xs : History) (a b c d : Entry)
        → ((((xs ++ a ∷ []) ++ b ∷ []) ++ c ∷ []) ++ d ∷ []) ≡ xs ++ a ∷ b ∷ c ∷ d ∷ []
    four_calls xs a b c d =
        append_assoc ((xs ++ a ∷ []) ++ b ∷ []) (c ∷ []) (d ∷ [])
        ∙ append_assoc (xs ++ a ∷ []) (b ∷ []) (c ∷ d ∷ [])
        ∙ append_assoc xs (a ∷ []) (b ∷ c ∷ d ∷ [])
