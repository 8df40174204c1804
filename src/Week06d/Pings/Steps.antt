-- ===== src/Week06d/Pings/Steps.antt =====
-- The rounds of pings of week06d/src/pings.c and the answers, in any order.
use networks_course.Prelude.{
  ℕ, zero, suc, ◌≡◌, ◌≢◌, inl, inr, refl, sym, ap, ap₂, subst, ◌∙◌, Bytes, ℤ, pos, negsuc, is_neg,
  int_lt, true, false, List, [], ◌∷◌, map, Option, none, some, ok, ok-injective, >>-eq-ok,
  get_elem?, set, ◌==◌, arith, get_elem?-set_self, get_elem?-set_ne, get_elem?-lt, Bool-cases,
  ==_iff,
}
use mathlib.Core.Option.{some-injective}
use networks_course.Week06d.Node.{Entry}
use networks_course.Week06d.Pings.{
  Peer, World, is_zero, listen_to, ping_node, ping_all_nodes, ping_sock,
}

-- The rounds of `ping_all_nodes`, and what arrives on the sockets that are listened to.
pub data Step (s t : List Peer) : Type 0 where
  round :
      (w : World) (line : Bytes)
      → int_lt (pos 0) w.time ≡ true
      → ping_all_nodes w s ≡ ok (t, line)
      → Step s t
  answer :
      (i : ℕ) (peer : Peer) (sock : ℤ) (junk : Bytes) (bytes : Option Bytes)
      → get_elem? s i ≡ some peer
      → peer.socket ≡ some sock
      → t ≡ set s i ((ping_sock junk bytes peer).1)
      → Step s t

pub data Reach (s : List Peer) : List Peer → Type 0 where
  here : Reach s s
  next : {t u : List Peer} → Reach s t → Step t u → Reach s u

-- A node that waits for a pong which is not listened for.
pub record IsGivenUp (peer : Peer) : Type 0 where
  pub waits : is_zero peer.entry.waiting_pong_since ≡ false
  pub deaf : peer.socket ≡ none

-- A socket is listened to only while its node waits.
abbrev pub IsPaired : Peer → Type 0
IsPaired peer = (sock : ℤ) → peer.socket ≡ some sock → is_zero peer.entry.waiting_pong_since ≡ false

pub get_elem?-map {ℓ κ} :
    {A : Type ℓ} {B : Type κ} (f : A → B) (xs : List A) (i : ℕ) {a : A}
    → get_elem? xs i ≡ some a
    → get_elem? (map f xs) i ≡ some (f a)
get_elem?-map f [] i e = cc
get_elem?-map f (x ∷ xs) zero e = ap some (ap f (some-injective _ _ e))
get_elem?-map f (x ∷ xs) (suc i) e = get_elem?-map f xs i e

pub ping_all_nodes-map :
    (w : World) (s t : List Peer) (line : Bytes)
    → ping_all_nodes w s ≡ ok (t, line)
    → t ≡ map (ping_node w) s
unfolding ping_all_nodes
ping_all_nodes-map w s t line h =
    let (_, h') = >>-eq-ok _ _ h in sym (ap (λ r. r.0) (ok-injective h'))

ping_node-waits :
    (w : World) (peer : Peer)
    → is_zero peer.entry.waiting_pong_since ≡ false
    → ping_node w peer ≡ peer
unfolding ping_node
ping_node-waits w peer h = rw h refl

deaf_listens : {sock : ℤ} → none ≡ some sock → ⊥
deaf_listens h = cc

Step-IsGivenUp :
    {s t : List Peer} (i : ℕ) (peer : Peer)
    → IsGivenUp peer
    → get_elem? s i ≡ some peer
    → Step s t
    → get_elem? t i ≡ some peer
Step-IsGivenUp {s} {t} i peer g e (round w line now run) =
    rw (ping_all_nodes-map w s t line run)
      (get_elem?-map (ping_node w) s i e ∙ ap some (ping_node-waits w peer g.waits))
Step-IsGivenUp {s} {t} i peer g e (answer j other sock junk bytes at listened changed) =
    elim (Bool-cases (j == i)) [
      | inl p ↦ absurd (
          deaf_listens (
            sym g.deaf
            ∙ ap (λ x. x.socket)
                (some-injective _ _ (sym e ∙ ap (get_elem? s) (sym ((==_iff j i).0 p)) ∙ at))
            ∙ listened))
      | inr p ↦ rw changed (get_elem?-set_ne s j i _ (λ q. different p q) ∙ e)
    ]
  where
    different : (j == i) ≡ false → j ≢ i
    different p q = ground (arith, p, q)

pub Reach-IsGivenUp :
    {s t : List Peer} (i : ℕ) (peer : Peer)
    → IsGivenUp peer
    → get_elem? s i ≡ some peer
    → Reach s t
    → get_elem? t i ≡ some peer
Reach-IsGivenUp i peer g e here = e
Reach-IsGivenUp i peer g e (next r st) = Step-IsGivenUp i peer g (Reach-IsGivenUp i peer g e r) st

-- Entries as they are added: idle or waiting, and no socket is listened to.
abbrev pub unconnected : List Entry → List Peer
unconnected entries = map (λ e. record { entry = e; socket = none }) entries

abbrev pub AllPaired : List Peer → Type 0
AllPaired s = (i : ℕ) (peer : Peer) → get_elem? s i ≡ some peer → IsPaired peer

get_elem?-map_inv {ℓ κ} :
    {A : Type ℓ} {B : Type κ} (f : A → B) (xs : List A) (i : ℕ) {b : B}
    → get_elem? (map f xs) i ≡ some b
    → (a : A) × (get_elem? xs i ≡ some a) × (f a ≡ b)
get_elem?-map_inv f [] i e = cc
get_elem?-map_inv f (x ∷ xs) zero e = (x, refl, some-injective _ _ e)
get_elem?-map_inv f (x ∷ xs) (suc i) e = get_elem?-map_inv f xs i e

pub unconnected-AllPaired : (entries : List Entry) → AllPaired (unconnected entries)
unconnected-AllPaired entries i peer e sock h =
    let (entry, _, p) = get_elem?-map_inv (λ x. record { entry = x; socket = none }) entries i e in
    absurd (deaf_listens (ap (λ x. x.socket) p ∙ h))

not_zero : (n : ℤ) → int_lt (pos 0) n ≡ true → is_zero n ≡ false
not_zero (pos n) h = ground arith
not_zero (negsuc n) h = cc

-- After a round, every node is waited for.
pub ping_node-waits_after :
    (w : World) (peer : Peer)
    → int_lt (pos 0) w.time ≡ true
    → is_zero (ping_node w peer).entry.waiting_pong_since ≡ false
unfolding ping_node listen_to
ping_node-waits_after w peer now = elim (Bool-cases (is_zero peer.entry.waiting_pong_since)) [
  | inr idle ↦ rw idle idle
  | inl idle ↦ elim (Bool-cases (is_neg (w.connect peer.entry.ip peer.entry.port))) [
    | inl failed ↦ rw (idle, failed) refl
    | inr failed ↦ rw (idle, failed) (not_zero w.time now)
  ]
]

pub ping_sock-deaf :
    (junk : Bytes) (bytes : Option Bytes) (peer : Peer)
    → ((ping_sock junk bytes peer).1).socket ≡ none
unfolding ping_sock
ping_sock-deaf junk none peer = refl
ping_sock-deaf junk (some bytes) peer = ground arith

Step-AllPaired : {s t : List Peer} → AllPaired s → Step s t → AllPaired t
Step-AllPaired {s} {t} h (round w line now run) i peer e sock listens =
    let (old, _, p) =
      get_elem?-map_inv (ping_node w) s i
        (ap (λ l. get_elem? l i) (sym (ping_all_nodes-map w s t line run)) ∙ e) in
    subst (λ x. is_zero x.entry.waiting_pong_since ≡ false) p (ping_node-waits_after w old now)
Step-AllPaired {s} {t} h (answer j other sock junk bytes at listened changed) i peer e sock'
      listens =
    elim (Bool-cases (j == i)) [
      | inl p ↦ absurd (
          deaf_listens (
            sym (ping_sock-deaf junk bytes other)
            ∙ ap (λ x. x.socket)
                (some-injective _ _ (
                  sym (get_elem?-set_self s j _ (get_elem?-lt s j at))
                  ∙ ap₂ get_elem? (sym changed) ((==_iff j i).0 p)
                  ∙ e))
            ∙ listens))
      | inr p ↦
          h i peer
            (sym (get_elem?-set_ne s j i _ (λ q. different p q))
              ∙ ap (λ l. get_elem? l i) (sym changed)
              ∙ e)
            sock' listens
    ]
  where
    different : (j == i) ≡ false → j ≢ i
    different p q = ground (arith, p, q)

pub Reach-AllPaired : {s t : List Peer} → AllPaired s → Reach s t → AllPaired t
Reach-AllPaired h here = h
Reach-AllPaired h (next r st) = Step-AllPaired (Reach-AllPaired h r) st
