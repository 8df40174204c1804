-- ===== src/Tests/Pings.antt =====
-- week06d: two nodes, one of which cannot be connected to.
use networks_course.Prelude.{
  ◌≡◌, refl, Bytes, pos, negsuc, true, [], ◌∷◌, ◌++◌, none, some, ok, get_elem?, replicate, codes,
  ◌==◌, if◌then◌else◌,
}
use networks_course.Week06d.Node.{Entry}
use networks_course.Week06d.Wire.{sizeof_preamble}
use networks_course.Week06d.Pings.{
  Peer, World, listen_to, ping_node, ping_status, ping_report, ping_all_nodes, is_pong, ping_sock,
}
use networks_course.Week06d.Pings.Steps.{Step, Reach, IsGivenUp, unconnected, answer, here, next}
use networks_course.Week06d.Pings.Outcomes.{failed_ping_is_final, no_connection}
use networks_course.Week06d.Handlers.{magic_pong}

abbrev ann : Entry
ann = record { name = codes "ann"; ip = codes "10.0.0.1"; port = 8000; waiting_pong_since = pos 0 }

abbrev bob : Entry
bob = record { name = codes "bob"; ip = codes "10.0.0.2"; port = 0; waiting_pong_since = pos 0 }

-- Nothing listens on the port 0.
abbrev world : World
world = record {
  connect = λ ip port. if port == 0 then negsuc 0 else pos 5;
  time = pos 100;
  room = λ sock. true;
}

abbrev idle : Entry → Peer
idle entry = record { entry = entry; socket = none }

abbrev asked : Peer
asked = record { entry = record ann { waiting_pong_since = pos 100 }; socket = some (pos 5) }

abbrev lost : Peer
lost = record { entry = record bob { waiting_pong_since = negsuc 0 }; socket = none }

abbrev line : Bytes
line = codes "Pings:  ann:ok  bob:ok "

ping_program : Unit {0}
unfolding ping_all_nodes ping_report ping_status ping_node listen_to ping_sock is_pong
ping_program = tt

first_round : ping_all_nodes world (idle ann ∷ idle bob ∷ []) ≡ ok (asked ∷ lost ∷ [], line)
unfolding ping_program
first_round = refl

abbrev line' : Bytes
line' = codes "Pings:  ann:ok  bob:failed "

-- The answer of the first node, which is read behind the preamble.
abbrev pong : Bytes
pong = replicate sizeof_preamble 0 ++ magic_pong ∷ []

pong_answers : Step (asked ∷ lost ∷ []) (idle ann ∷ lost ∷ [])
unfolding ping_program
pong_answers = answer 0 asked (pos 5) [] (some pong) refl refl refl

no_steps : Reach (unconnected (ann ∷ bob ∷ [])) (idle ann ∷ idle bob ∷ [])
unfolding ping_program
no_steps = here

failed_ping_is_final_example :
    (lost' : Peer) × (get_elem? (asked ∷ lost ∷ []) 1 ≡ some lost')
    × (get_elem? (idle ann ∷ lost ∷ []) 1 ≡ some lost')
    × IsGivenUp lost'
failed_ping_is_final_example =
    failed_ping_is_final (ann ∷ bob ∷ []) 1 (idle bob) no_steps refl
      (no_connection world line refl refl refl first_round) (next here pong_answers)
