-- ===== src/Week06d/Requests/Closing.antt =====
-- The sockets of week06d/src/requests.c: none is left open but the one that is returned.
use networks_course.Prelude.{
  ℕ, ◌+◌, ◌≡◌, inl, inr, refl, sym, ap, ◌∙◌, Bytes, ℤ, pos, negsuc, is_neg, int_eq, Bool, true,
  false, List, [], ◌∷◌, ◌++◌, append-nil, Option, none, some, Run, ok, fault, ok-injective,
  Bool-cases,
}
use networks_course.Sockets.{
  Call, History, System, Calls, ◌>>=◌, give, compute, ask, receive, call_socket, call_connect,
  call_send, call_recv, call_close,
}
use networks_course.Sockets.Held.{
  without, given, held_after, held, IsAbsent, IsFresh, held-append, without-given, held-call,
  Settles,
}
use networks_course.Week06d.Directory.{Directory}
use networks_course.Week06d.Wire.{Self, sizeof_preamble}
use networks_course.Week06d.Bootstrap.{request_bytes, Exchange, read_answer}
use networks_course.Week06d.Requests.{
  give_up, connect_sock, connect_to_node_plain, send_request_sock, send_request_plain,
  send_receive_sock, send_receive_plain,
}

module _ (system : System) (fresh : IsFresh system) where
  -- A new socket.
  held-socket :
      (h : History)
      → held (h ++ record { call = call_socket; answer = system.answer h call_socket } ∷ [])
        ≡ held h ++ given (system.answer h call_socket)
  unfolding held_after
  held-socket h =
      held-append h (record { call = call_socket; answer = system.answer h call_socket })

  held-close :
      (h : History) (fds : List ℤ) (fd answer : ℤ)
      → held h ≡ fds ++ given fd
      → IsAbsent fd fds
      → held (h ++ record { call = call_close fd; answer = answer } ∷ []) ≡ fds
  unfolding held_after
  held-close h fds fd answer e a =
      held-append h (record { call = call_close fd; answer = answer })
      ∙ ap (without fd) e
      ∙ without-given fds fd a

  -- A socket that was just made, and what was open before.
  record JustMade (fds : List ℤ) (sock : ℤ) (h : History) : Type 0 where
    pub held_now : held h ≡ fds ++ given sock
    pub absent : IsAbsent sock fds
    pub valid : is_neg sock ≡ false

  -- Another call is made.
  JustMade-call :
      (fds : List ℤ) (sock : ℤ) (h : History) (call : Call) (answer : ℤ)
      → ((xs : List ℤ) → held_after (record { call = call; answer = answer }) xs ≡ xs)
      → JustMade fds sock h
      → JustMade fds sock (h ++ record { call = call; answer = answer } ∷ [])
  JustMade-call fds sock h call answer same m = record {
    held_now = held-call h call answer same ∙ m.held_now;
    absent = m.absent;
    valid = m.valid;
  }

  -- Code that returns a new socket or a negative number, and leaves nothing else open that was not.
  pub record Connects (code : Calls ℤ) (h : History) (fds : List ℤ) : Type 0 where
    pub settles : Settles code h fds given
    pub absent : is_neg settles.result ≡ false → IsAbsent settles.result fds

  give_up-Connects :
      (fds : List ℤ) (sock : ℤ) (h : History)
      → JustMade fds sock h
      → Connects (give_up system sock) h fds
  unfolding give_up given
  give_up-Connects fds sock h m = record {
    settles = record {
      result = negsuc 0;
      history = _;
      returns = refl;
      held_then =
          held-close h fds sock (system.answer h (call_close sock)) m.held_now m.absent
          ∙ sym (append-nil fds);
    };
    absent = λ e. cc;
  }

  connect_sock-Connects :
      (fds : List ℤ) (sock : ℤ) (port : ℕ) (o : Option Bytes) (h : History)
      → JustMade fds sock h
      → Connects (connect_sock system sock port o) h fds
  unfolding connect_sock held_after
  connect_sock-Connects fds sock port none h m = give_up-Connects fds sock h m
  connect_sock-Connects fds sock port (some address) h m =
      let answer = system.answer h (call_connect sock address port) in
      let m' = JustMade-call fds sock h (call_connect sock address port) answer (λ xs. refl) m in
      elim (Bool-cases (int_eq answer (pos 0))) [
        | inl e ↦ record {
          settles = record {
            result = sock;
            history = _;
            returns = rw e refl;
            held_then = m'.held_now;
          };
          absent = λ p. m.absent;
        }
        | inr e ↦
            (let g = give_up-Connects fds sock _ m' in
              record {
                settles = record {
                  result = g.settles.result;
                  history = g.settles.history;
                  returns = rw e g.settles.returns;
                  held_then = g.settles.held_then;
                };
                absent = g.absent;
              })
      ]

  given-negative : (fd : ℤ) → is_neg fd ≡ true → given fd ≡ []
  unfolding given
  given-negative fd e = rw e refl

  -- Connecting leaves open what was open and the socket that it returns, where it returns one: it
  -- closes the socket on each of its errors. Assumed is that a new descriptor is not one that is in
  -- use.
  pub connect_to_node_plain-Connects :
      (ip : Bytes) (port : ℕ) (h : History)
      → Connects (connect_to_node_plain system ip port) h (held h)
  unfolding connect_to_node_plain given
  connect_to_node_plain-Connects ip port h =
      let sock = system.answer h call_socket in
      let made = h ++ record { call = call_socket; answer = sock } ∷ [] in
      elim (Bool-cases (is_neg sock)) [
        | inl e ↦ record {
          settles = record {
            result = negsuc 0;
            history = made;
            returns = rw e refl;
            held_then = held-socket h ∙ ap (λ l. held h ++ l) (given-negative sock e);
          };
          absent = λ p. cc;
        }
        | inr e ↦
            (let c =
                connect_sock-Connects (held h) sock port (system.gethostbyname made ip) made
                  (record { held_now = held-socket h; absent = fresh.new_socket h; valid = e }) in
              record {
                settles = record {
                  result = c.settles.result;
                  history = c.settles.history;
                  returns = rw e c.settles.returns;
                  held_then = c.settles.held_then;
                };
                absent = c.absent;
              })
      ]

  -- Sending a request returns and leaves open what was open before it, whether or not the node can
  -- be connected to. Assumed is that a new descriptor is not one that is in use, and that the
  -- preamble is packed.
  pub send_request_plain-Settles :
      (self : Self) (junk ip : Bytes) (port : ℕ) (body request : Bytes) (h : History)
      → request_bytes self junk body ≡ ok request
      → Settles (send_request_plain system self junk ip port body) h (held h) (λ _. [])
  unfolding send_request_plain send_request_sock held_after
  send_request_plain-Settles self junk ip port [] request h e = record {
    result = tt;
    history = h;
    returns = refl;
    held_then = sym (append-nil (held h));
  }
  send_request_plain-Settles self junk ip port (byte ∷ body) request h e =
      let c = connect_to_node_plain-Connects ip port h in
      let s = c.settles in
      elim (Bool-cases (is_neg s.result)) [
        | inl n ↦ record {
          result = tt;
          history = s.history;
          returns = rw (s.returns, n) refl;
          held_then = s.held_then ∙ ap (λ l. held h ++ l) (given-negative s.result n);
        }
        | inr n ↦
            (let answer = system.answer s.history (call_send s.result request) in
              let sent =
                s.history ++ record { call = call_send s.result request; answer = answer } ∷ [] in
              record {
                result = tt;
                history = _;
                returns = rw (s.returns, n, e) refl;
                held_then =
                    held-close sent (held h) s.result (system.answer sent (call_close s.result))
                      (held-call s.history (call_send s.result request) answer (λ xs. refl)
                        ∙ s.held_then)
                      (c.absent n)
                    ∙ sym (append-nil (held h));
              })
      ]

  closes_after :
      (sock : ℤ) (fds : List ℤ) (x : Run Exchange) (h h' : History) (exchange : Exchange)
      → held h ≡ fds ++ given sock
      → IsAbsent sock fds
      → (compute x >>= λ done. ask system (call_close sock) >>= λ closed. give done) h
        ≡ ok (exchange, h')
      → held h' ≡ fds
  closes_after sock fds fault h h' exchange o a e = cc
  closes_after sock fds (ok done) h h' exchange o a e =
      ap (λ r. held (r.1)) (sym (ok-injective e))
      ∙ held-close h fds sock (system.answer h (call_close sock)) o a

  -- An exchange on a socket that is then closed.
  exchange-held :
      (sock : ℤ) (fds : List ℤ) (size : ℕ) (r : Run Bytes)
      (read_received : Option Bytes → Run Exchange) (h h' : History) (exchange : Exchange)
      → held h ≡ fds ++ given sock
      → IsAbsent sock fds
      → ((compute r >>= λ request. ask system (call_send sock request) >>= λ sent.
              receive system sock size >>= λ received. compute (read_received received))
            >>= λ done. ask system (call_close sock) >>= λ closed. give done)
          h
        ≡ ok (exchange, h')
      → held h' ≡ fds
  unfolding held_after
  exchange-held sock fds size fault read_received h h' exchange o a e = cc
  exchange-held sock fds size (ok request) read_received h h' exchange o a e =
      let answer = system.answer h (call_send sock request) in
      let sent = h ++ record { call = call_send sock request; answer = answer } ∷ [] in
      closes_after sock fds (read_received (system.received sent sock size)) _ h' exchange
        (held-call sent (call_recv sock size) _ (λ xs. refl)
          ∙ held-call h (call_send sock request) answer (λ xs. refl)
          ∙ o)
        a e

  -- After an exchange that returns, what was open before it is open. Assumed is that a new
  -- descriptor is not one that is in use.
  pub send_receive_plain-held :
      (self : Self) (junk : Bytes) (asked : Bool) (known_nodes : Directory) (answer_junk ip : Bytes)
      (port : ℕ) (body response : Bytes) (response_length : ℕ) (h h' : History)
      (exchange : Exchange)
      → send_receive_plain system self junk asked known_nodes answer_junk ip port body response
          response_length h
        ≡ ok (exchange, h')
      → held h' ≡ held h
  unfolding send_receive_plain send_receive_sock
  send_receive_plain-held self junk asked known_nodes answer_junk ip port body response
        response_length h h' exchange e =
      let c = connect_to_node_plain-Connects ip port h in
      let s = c.settles in
      elim (Bool-cases (is_neg s.result)) [
        | inl n ↦
            (let e' = rw (s.returns, n) at e in
              ap (λ r. held (r.1)) (sym (ok-injective e'))
              ∙ s.held_then
              ∙ ap (λ l. held h ++ l) (given-negative s.result n)
              ∙ append-nil (held h))
        | inr n ↦
            exchange-held s.result (held h) (sizeof_preamble + response_length)
              (request_bytes self junk body) (read_answer asked known_nodes ip answer_junk response)
              s.history h' exchange s.held_then (c.absent n) (rw (s.returns, n) at e)
      ]
