-- ===== src/Week06d/Requests/Joining.antt =====
-- `bootstrap_known_nodes` of week06d/src/bootstrap.c: the calls that it makes, and what it makes of
-- the answers.
use networks_course.Prelude.{
  ℕ, ◌+◌, ◌≡◌, inl, inr, refl, ◌∙◌, Bytes, ℤ, false, List, [], ◌∷◌, ◌++◌, Option, none, some, ok,
  Run-cases,
}
use networks_course.Week06d.Node.{Node}
use networks_course.Week06d.Directory.{Directory, add_known_node}
use networks_course.Week06d.Handlers.{magic_get_node_list}
use networks_course.Week06d.Bootstrap.{
  request_bytes, receive_response, context_of, read_answer, hello_body, read_hello, get_known_nodes,
  bootstrap_known_nodes,
}
use networks_course.Sockets.{
  History, System, Calls, ◌>>=◌, give, compute, received_answer, call_send, call_recv,
}
use networks_course.Week06d.Wire.{Self, sizeof_preamble}
use networks_course.Week06d.Requests.{
  send_receive_sock, say_hello, request_known_nodes, bootstrap_on,
}

module _ (system : System) where
  -- The calls of an exchange.
  abbrev pub exchanged : ℤ → Bytes → ℕ → History → History
  exchanged sock request size h =
      let sent =
        h
        ++ record {
          call = call_send sock request;
          answer = system.answer h (call_send sock request);
        }
          ∷ [] in
      sent
      ++ record {
        call = call_recv sock size;
        answer = received_answer (system.received sent sock size);
      }
        ∷ []

  -- What is received in it.
  abbrev pub answered : ℤ → Bytes → ℕ → History → Option Bytes
  answered sock request size h =
      system.received
        (h
          ++ record {
            call = call_send sock request;
            answer = system.answer h (call_send sock request);
          }
            ∷ [])
        sock size

module _ (system : System) (self : Self) (junk answer_junk : Bytes) where
  -- An answer is read as `receive_response` reads it.
  read_answer-response :
      {Result : Type 0} (known_nodes : Directory) (ip response : Bytes) (o : Option Bytes)
      (next : Bytes → Calls Result) (h : History)
      → (compute (read_answer false known_nodes ip answer_junk response o) >>= λ exchange.
            next exchange.response)
          h
        ≡ (compute (receive_response o response) >>= next) h
  unfolding read_answer context_of receive_response
  read_answer-response known_nodes ip response none next h = refl
  read_answer-response {Result = Result} known_nodes ip response (some received) next h =
      elim (Run-cases (receive_response (some received) response)) [
        | inl e ↦ rw e refl
        | inr (r, e) ↦ rw e refl
      ]

  calls_assoc :
      {A B C : Type 0} (p : Calls A) (q : A → Calls B) (r : B → Calls C) (h : History)
      → ((p >>= q) >>= r) h ≡ (p >>= λ a. q a >>= r) h
  calls_assoc p q r h = elim (Run-cases (p h)) [ inl e ↦ rw e refl | inr (a, e) ↦ rw e refl ]

  send_receive_sock-response :
      {Result : Type 0} (known_nodes : Directory) (sock : ℤ) (ip body request response : Bytes)
      (size : ℕ) (next : Bytes → Calls Result) (h : History)
      → request_bytes self junk body ≡ ok request
      → (send_receive_sock system self junk false known_nodes answer_junk sock ip body response size
            >>= λ exchange. next exchange.response)
          h
        ≡ (compute (
                receive_response (answered system sock request (sizeof_preamble + size) h) response)
              >>= next)
            (exchanged system sock request (sizeof_preamble + size) h)
  unfolding send_receive_sock
  send_receive_sock-response known_nodes sock ip body request response size next h e =
      rw e (read_answer-response known_nodes ip response _ next _)

  -- The nodes that are asked for, and what is done with them.
  request_known_nodes-answer :
      {Result : Type 0} (known_nodes : Directory) (sock : ℤ) (ip request list_rest : Bytes)
      (next : List Node → Calls Result) (h : History)
      → request_bytes self junk (magic_get_node_list ∷ []) ≡ ok request
      → (request_known_nodes system self junk answer_junk list_rest known_nodes sock ip >>= next) h
        ≡ (compute (
                receive_response
                  (answered system sock request 20502 h)
                  (magic_get_node_list ∷ list_rest))
              >>= λ buf. compute (get_known_nodes buf) >>= next)
            (exchanged system sock request 20502 h)
  unfolding request_known_nodes
  request_known_nodes-answer known_nodes sock ip request list_rest next h e =
      calls_assoc
        (send_receive_sock system self junk false known_nodes answer_junk sock ip
          (magic_get_node_list ∷ []) (magic_get_node_list ∷ list_rest) 20480)
        (λ exchange. compute (get_known_nodes exchange.response)) next h
      ∙ send_receive_sock-response known_nodes sock ip (magic_get_node_list ∷ []) request
          (magic_get_node_list ∷ list_rest) 20480 (λ buf. compute (get_known_nodes buf) >>= next) h
          e

  say_hello-answer :
      {Result : Type 0} (known_nodes : Directory) (sock : ℤ) (ip request hello_rest : Bytes)
      (next : Node → Calls Result) (h : History)
      → request_bytes self junk (hello_body self) ≡ ok request
      → (say_hello system self junk answer_junk hello_rest known_nodes sock ip >>= next) h
        ≡ (compute (
                receive_response
                  (answered system sock request 45 h)
                  (hello_body self ++ hello_rest))
              >>= λ buf. next (read_hello ip buf))
            (exchanged system sock request 45 h)
  unfolding say_hello
  say_hello-answer known_nodes sock ip request hello_rest next h e =
      calls_assoc
        (send_receive_sock system self junk false known_nodes answer_junk sock ip (hello_body self)
          (hello_body self ++ hello_rest) 23)
        (λ exchange. give (read_hello ip exchange.response)) next h
      ∙ send_receive_sock-response known_nodes sock ip (hello_body self) request
          (hello_body self ++ hello_rest) 23 (λ buf. next (read_hello ip buf)) h e

  -- On a connection, the node that joins says hello, asks for the nodes that the other node knows,
  -- and makes of the two answers what `bootstrap_known_nodes` makes of them: these are all its
  -- calls, and the socket stays open. Assumed is that the preamble can be packed.
  pub bootstrap_on-bootstrap_known_nodes :
      (known_nodes : Directory) (sock : ℤ) (ip hello list hello_rest list_rest : Bytes)
      (h : History)
      → request_bytes self junk (hello_body self) ≡ ok hello
      → request_bytes self junk (magic_get_node_list ∷ []) ≡ ok list
      → bootstrap_on system self junk answer_junk hello_rest list_rest known_nodes ip sock h
        ≡ compute
            (bootstrap_known_nodes self ip
              (answered system sock hello 45 h)
              (answered system sock list 20502 (exchanged system sock hello 45 h))
              hello_rest
              list_rest
              known_nodes)
            (exchanged system sock list 20502 (exchanged system sock hello 45 h))
  unfolding bootstrap_on bootstrap_known_nodes
  bootstrap_on-bootstrap_known_nodes known_nodes sock ip hello list hello_rest list_rest h e e' =
      let hello_answer =
        receive_response (answered system sock hello 45 h) (hello_body self ++ hello_rest) in
      let then_h = exchanged system sock hello 45 h in
      let list_answer =
        receive_response (answered system sock list 20502 then_h)
          (magic_get_node_list ∷ list_rest) in
      say_hello-answer known_nodes sock ip hello hello_rest _ h e ∙ elim (Run-cases hello_answer) [
        | inl f ↦ rw f refl
        | inr (buf, f) ↦ rw f (elim (Run-cases (add_known_node known_nodes (read_hello ip buf))) [
          | inl g ↦ rw g refl
          | inr (known_nodes', g) ↦ rw g (
              request_known_nodes-answer known_nodes' sock ip list list_rest _ then_h e'
              ∙ elim (Run-cases list_answer) [
                | inl k ↦ rw k refl
                | inr (buf', k) ↦ rw k (elim (Run-cases (get_known_nodes buf')) [
                  | inl n ↦ rw n refl
                  | inr (nodes, n) ↦ rw n refl
                ])
              ])
        ])
      ]
