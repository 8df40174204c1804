-- ===== src/Week06d/Pings/Outcomes.antt =====
-- What becomes of a node that is pinged by week06d/src/pings.c.
use networks_course.Prelude.{
  ℕ, ◌≡◌, inl, inr, refl, sym, ap, ◌∙◌, Bytes, ℤ, pos, negsuc, is_neg, int_lt, true, false, List,
  Option, none, some, ok, get_elem?, set, get_elem?-set_self, get_elem?-lt, Bool-cases,
}
use networks_course.Week06d.Node.{Entry}
use networks_course.Week06d.Pings.{
  Peer, World, is_zero, ping_node, ping_all_nodes, is_pong, ping_sock,
}
use networks_course.Week06d.Pings.Steps.{
  Reach, IsGivenUp, IsPaired, get_elem?-map, ping_all_nodes-map, Reach-IsGivenUp, unconnected,
  unconnected-AllPaired, ping_node-waits_after, ping_sock-deaf, Reach-AllPaired,
}

-- The ways in which a ping of node `i` fails: it cannot be connected to, or what arrives is an error or
-- no pong.
pub data Fails (i : ℕ) (peer : Peer) (s t : List Peer) : Type 0 where
  no_connection :
      (w : World) (line : Bytes)
      → int_lt (pos 0) w.time ≡ true
      → is_zero peer.entry.waiting_pong_since ≡ true
      → is_neg (w.connect peer.entry.ip peer.entry.port) ≡ true
      → ping_all_nodes w s ≡ ok (t, line)
      → Fails i peer s t
  no_pong :
      (sock : ℤ) (junk : Bytes) (bytes : Option Bytes)
      → peer.socket ≡ some sock
      → (ping_sock junk bytes peer).0 ≡ negsuc 0
      → t ≡ set s i ((ping_sock junk bytes peer).1)
      → Fails i peer s t

-- What a failure leaves of the node.
abbrev pub Failed : ℕ → List Peer → Type 0
Failed i t = (peer : Peer) × (get_elem? t i ≡ some peer) × IsGivenUp peer

pub ping_sock-pong :
    (junk bytes : Bytes) (peer : Peer)
    → is_pong junk bytes ≡ true
    → ping_sock junk (some bytes) peer
      ≡ (pos 0, record { entry = record peer.entry { waiting_pong_since = pos 0 }; socket = none })
unfolding ping_sock
ping_sock-pong junk bytes peer h = rw h refl

ping_sock-no_pong :
    (junk bytes : Bytes) (peer : Peer)
    → is_pong junk bytes ≡ false
    → ping_sock junk (some bytes) peer ≡ (negsuc 0, record peer { socket = none })
unfolding ping_sock
ping_sock-no_pong junk bytes peer h = rw h refl

not_failed : pos 0 ≡ negsuc 0 → ⊥
not_failed h = cc

ping_sock-failed :
    (junk : Bytes) (bytes : Option Bytes) (peer : Peer)
    → (ping_sock junk bytes peer).0 ≡ negsuc 0
    → ((ping_sock junk bytes peer).1).entry ≡ peer.entry
ping_sock-failed junk none peer h = unfold ping_sock in refl
ping_sock-failed junk (some bytes) peer h = elim (Bool-cases (is_pong junk bytes)) [
  | inl e ↦ absurd (not_failed (sym (ap (λ r. r.0) (ping_sock-pong junk bytes peer e)) ∙ h))
  | inr e ↦ ap (λ r. (r.1).entry) (ping_sock-no_pong junk bytes peer e)
]

true-false : true ≡ false → ⊥
true-false h = cc

deaf_of_idle :
    (peer : Peer)
    → IsPaired peer
    → is_zero peer.entry.waiting_pong_since ≡ true
    → (o : Option ℤ) → peer.socket ≡ o
    → o ≡ none
deaf_of_idle peer p idle none h = refl
deaf_of_idle peer p idle (some sock) h = absurd (true-false (sym idle ∙ p sock h))

ping_node-failed :
    (w : World) (peer : Peer)
    → is_zero peer.entry.waiting_pong_since ≡ true
    → is_neg (w.connect peer.entry.ip peer.entry.port) ≡ true
    → ping_node w peer ≡ record peer { entry = record peer.entry { waiting_pong_since = negsuc 0 } }
unfolding ping_node
ping_node-failed w peer idle failed = rw (idle, failed) refl

Fails-Failed :
    {s t : List Peer} (i : ℕ) (peer : Peer)
    → get_elem? s i ≡ some peer
    → IsPaired peer
    → Fails i peer s t
    → Failed i t
Fails-Failed {s} {t} i peer e p (no_connection w line now idle failed run) = (
  ping_node w peer,
  rw (ping_all_nodes-map w s t line run) (get_elem?-map (ping_node w) s i e),
  record {
    waits = ping_node-waits_after w peer now;
    deaf =
        ap (λ x. x.socket) (ping_node-failed w peer idle failed)
        ∙ deaf_of_idle peer p idle peer.socket refl;
  },
)
Fails-Failed {s} {t} i peer e p (no_pong sock junk bytes listens failed changed) = (
  (ping_sock junk bytes peer).1,
  rw changed (get_elem?-set_self s i _ (get_elem?-lt s i e)),
  record {
    waits =
        ap (λ x. is_zero x.waiting_pong_since) (ping_sock-failed junk bytes peer failed)
        ∙ p sock listens;
    deaf = ping_sock-deaf junk bytes peer;
  },
)

-- A failed ping is final: from nodes that were added and not yet connected to, after any rounds and
-- answers, once a node cannot be connected to or answers with an error or something else than a pong,
-- its entry and its lack of a socket are the same after whatever rounds and answers follow. It still
-- counts as waited for, so that no later round connects to it. The time is positive in every round.
pub failed_ping_is_final :
    (entries : List Entry) {s t u : List Peer} (i : ℕ) (peer : Peer)
    → Reach (unconnected entries) s
    → get_elem? s i ≡ some peer
    → Fails i peer s t
    → Reach t u
    → (lost : Peer) × (get_elem? t i ≡ some lost) × (get_elem? u i ≡ some lost) × IsGivenUp lost
failed_ping_is_final entries {s} {t} {u} i peer r e f r' =
    let (lost, at, given_up) =
      Fails-Failed i peer e (Reach-AllPaired (unconnected-AllPaired entries) r i peer e) f in
    (lost, at, Reach-IsGivenUp i lost given_up at r', given_up)
