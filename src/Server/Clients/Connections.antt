-- ===== src/Server/Clients/Connections.antt =====
-- The slots of the clients, as connections are made and threads end in any order.
use tvpvrd.Prelude.{
  if◌then◌else◌, ℕ, zero, suc, ◌-◌, ◌<◌, ◌≡◌, ◌≢◌, refl, ap, sym, ◌∙◌, ◌⊎◌, inl, inr, ◌↔◌, Bool,
  true, false, List, [], ◌∷◌, Option, none, some, ltb, leb, length, set, Bool-cases, arith,
}
use tvpvrd.Prelude.Int.{ℤ, negsuc, same_ℤ, same_ℤ-equal, equal-same_ℤ}
use tvpvrd.Recs.State.{Outcome, returns, aborts, Ensures-if, Ensures, Ensures-returns}
use tvpvrd.Transc.Slots.{
  find_free, used, slot_at, find_free_full, find_free_room, slot_at-find_free, length-set,
  used-fill, used-clear, slot_at-lt,
}
use tvpvrd.Server.Clients.{Client, Clients, no_clients, accept_client, find_client, client_ends}

-- Some slot has a thread with that socket.
abbrev pub Connected : ℤ → Clients → Type 0
Connected socket s = (i : ℕ) × (c : Client) × (slot_at s.slots i ≡ some c) × (c.socket ≡ socket)

-- What `accept` gives: -1 where it fails, and else a number of a socket that is not in use.
abbrev pub Accepted : ℤ → Clients → Type 0
Accepted socket s =
    (socket ≡ negsuc 0) ⊎ ((i : ℕ) (c : Client) → slot_at s.slots i ≡ some c → c.socket ≢ socket)

pub data Step : Clients → Clients → Type 0 where
  connects :
      (s s' : Clients) (c : Client) (created stored : Bool)
      → Accepted c.socket s
      → accept_client created c s ≡ returns (s', stored)
      → Step s s'
  leaves :
      (s s' : Clients) (socket : ℤ)
      → Connected socket s
      → client_ends socket s ≡ returns s'
      → Step s s'

pub data Reachable (free : List (Option Client)) : Clients → Type 0 where
  start : Reachable free (no_clients free)
  next : (s s' : Clients) → Reachable free s → Step s s' → Reachable free s'

-- A socket that was opened has one slot.
abbrev pub Distinct : List (Option Client) → Type 0
Distinct xs =
    (i j : ℕ) (a b : Client)
    → slot_at xs i ≡ some a
    → slot_at xs j ≡ some b
    → a.socket ≢ negsuc 0
    → a.socket ≡ b.socket
    → i ≡ j

pub record Inv (max_clients : ℕ) (s : Clients) : Type 0 where
  pub size : length s.slots ≡ max_clients
  pub counted : s.ncli_threads ≡ used s.slots
  pub distinct : Distinct s.slots

find_client-found :
    (socket : ℤ) (xs : List (Option Client)) (i : ℕ) (c : Client)
    → slot_at xs i ≡ some c
    → c.socket ≡ socket
    → (d : Client) × (slot_at xs (find_client socket xs) ≡ some d) × (d.socket ≡ socket)
unfolding find_client slot_at
find_client-found socket [] i c at e = cc at
find_client-found socket (none ∷ xs) zero c at e = cc at
find_client-found socket (none ∷ xs) (suc i) c at e = find_client-found socket xs i c at e
find_client-found socket (some b ∷ xs) zero c at e =
    let one : b ≡ c = cc at in
    let same : same_ℤ b.socket socket ≡ true =
      equal-same_ℤ b.socket socket (ap (λ x. x.socket) one ∙ e) in
    rw same (b, refl, ap (λ x. x.socket) one ∙ e)
find_client-found socket (some b ∷ xs) (suc i) c at e = elim (Bool-cases (same_ℤ b.socket socket)) [
  | inl same ↦ rw same (b, refl, same_ℤ-equal b.socket socket same)
  | inr other ↦ rw other (find_client-found socket xs i c at e)
]

-- The slot that the thread of a socket finds, and what it makes of the slots.
client_ends-some :
    (s : Clients) (i : ℕ) (c : Client)
    → slot_at s.slots i ≡ some c
    → (k : ℕ) × (d : Client) × (slot_at s.slots k ≡ some d)
      × (d.socket ≡ c.socket)
      × (client_ends c.socket s
          ≡ returns (record { slots = set s.slots k none; ncli_threads = s.ncli_threads - 1 }))
unfolding client_ends
client_ends-some s i c at =
    let k = find_client c.socket s.slots in
    let (d, found, same) = find_client-found c.socket s.slots i c at refl in
    let inside : leb (length s.slots) k ≡ false = ground (arith, slot_at-lt s.slots k d found) in
    (k, d, found, same, rw inside refl)

pub client_ends_slot :
    (s : Clients) (i : ℕ) (c : Client)
    → Distinct s.slots
    → slot_at s.slots i ≡ some c
    → c.socket ≢ negsuc 0
    → client_ends c.socket s
      ≡ returns (record { slots = set s.slots i none; ncli_threads = s.ncli_threads - 1 })
client_ends_slot s i c distinct at opened =
    let (k, d, found, same, ends) = client_ends-some s i c at in
    let own : i ≡ k = distinct i k c d at found opened (sym same) in rw own ends

slot_at_cleared :
    (xs : List (Option Client)) (k i : ℕ) (a : Client)
    → slot_at (set xs k none) i ≡ some a
    → slot_at xs i ≡ some a
unfolding slot_at
slot_at_cleared [] k i a e = e
slot_at_cleared (x ∷ xs) zero zero a e = cc e
slot_at_cleared (x ∷ xs) zero (suc i) a e = e
slot_at_cleared (x ∷ xs) (suc k) zero a e = e
slot_at_cleared (x ∷ xs) (suc k) (suc i) a e = slot_at_cleared xs k i a e

Distinct-clear : (xs : List (Option Client)) (k : ℕ) → Distinct xs → Distinct (set xs k none)
Distinct-clear xs k distinct i j a b ai bj opened same =
    distinct i j a b (slot_at_cleared xs k i a ai) (slot_at_cleared xs k j b bj) opened same

slot_at_filled :
    (xs : List (Option Client)) (k i : ℕ) (c a : Client)
    → slot_at (set xs k (some c)) i ≡ some a
    → ((i ≡ k) × (a.socket ≡ c.socket)) ⊎ (slot_at xs i ≡ some a)
unfolding slot_at
slot_at_filled [] k i c a e = inr e
slot_at_filled (x ∷ xs) zero zero c a e = inl (refl, cc e)
slot_at_filled (x ∷ xs) zero (suc i) c a e = inr e
slot_at_filled (x ∷ xs) (suc k) zero c a e = inr e
slot_at_filled (x ∷ xs) (suc k) (suc i) c a e = elim (slot_at_filled xs k i c a e) [
  | inl (at, same) ↦ inl (ap suc at, same)
  | inr other ↦ inr other
]

Distinct-fill :
    (xs : List (Option Client)) (k : ℕ) (c : Client)
    → ((c.socket ≡ negsuc 0) ⊎ ((i : ℕ) (d : Client) → slot_at xs i ≡ some d → d.socket ≢ c.socket))
    → Distinct xs
    → Distinct (set xs k (some c))
Distinct-fill xs k c accepted distinct i j a b ai bj opened same =
    elim (slot_at_filled xs k i c a ai) [
      | inl (here, a_new) ↦ elim (slot_at_filled xs k j c b bj) [
        | inl (there, b_new) ↦ here ∙ sym there
        | inr b_old ↦ elim accepted [
          | inl failed ↦ absurd (opened (a_new ∙ failed))
          | inr unused ↦ absurd (unused j b b_old (sym same ∙ a_new))
        ]
      ]
      | inr a_old ↦ elim (slot_at_filled xs k j c b bj) [
        | inl (there, b_new) ↦ elim accepted [
          | inl failed ↦ absurd (opened (same ∙ b_new ∙ failed))
          | inr unused ↦ absurd (unused i a a_old (same ∙ b_new))
        ]
        | inr b_old ↦ distinct i j a b a_old b_old opened same
      ]
    ]

module _ (max_clients : ℕ) where
  accept_client-Inv :
      (s : Clients) (c : Client) (created : Bool)
      → Accepted c.socket s
      → Inv max_clients s
      → Ensures (λ r. Inv max_clients r.0) (accept_client created c s)
  unfolding accept_client
  accept_client-Inv s c created accepted inv =
      elim (Bool-cases (ltb (find_free s.slots) (length s.slots))) [
        | inr full ↦ rw full inv
        | inl room ↦ rw room (
            Ensures-if (λ r. Inv max_clients r.0) created _ aborts
              (record {
                size = length-set s.slots (find_free s.slots) (some c) ∙ inv.size;
                counted =
                    ap suc inv.counted
                    ∙ sym (
                        used-fill s.slots (find_free s.slots) c (ground arith)
                          (slot_at-find_free s.slots));
                distinct = Distinct-fill s.slots (find_free s.slots) c accepted inv.distinct;
              })
              tt)
      ]

  client_ends-Inv :
      (s : Clients) (socket : ℤ)
      → Connected socket s
      → Inv max_clients s
      → Ensures (Inv max_clients) (client_ends socket s)
  client_ends-Inv s socket (i, c, at, same) inv =
      let (k, d, found, own, ends) = client_ends-some s i c at in
      rw (← same, ends)
        (record {
          size = length-set s.slots k none ∙ inv.size;
          counted = omega (arith, inv.counted, used-clear s.slots k d found);
          distinct = Distinct-clear s.slots k inv.distinct;
        })

  Step-Inv : (s s' : Clients) → Step s s' → Inv max_clients s → Inv max_clients s'
  Step-Inv s s' (connects _ _ c created stored accepted done) inv =
      Ensures-returns (λ r. Inv max_clients r.0) (accept_client created c s) (s', stored) done
        (accept_client-Inv s c created accepted inv)
  Step-Inv s s' (leaves _ _ socket connected done) inv =
      Ensures-returns (Inv max_clients) (client_ends socket s) s' done
        (client_ends-Inv s socket connected inv)

free-Distinct : (xs : List (Option Client)) → used xs ≡ 0 → Distinct xs
free-Distinct xs h i j a b ai bj opened same = absurd (omega (arith, used-clear xs i a ai))

pub Reachable_counted :
    (free : List (Option Client)) (s : Clients)
    → used free ≡ 0
    → Reachable free s
    → Inv (length free) s
Reachable_counted free _ h start = record {
  size = refl;
  counted = sym h;
  distinct = free-Distinct free h;
}
Reachable_counted free s' h (next s _ reached step) =
    Step-Inv (length free) s s' step (Reachable_counted free s h reached)

-- However that goes: a connection is turned away exactly where as many threads run as there are
-- slots.
pub Reachable_refuses :
    (free : List (Option Client)) (s : Clients) (created : Bool) (c : Client)
    → used free ≡ 0
    → Reachable free s
    → (accept_client created c s ≡ returns (s, false)) ↔ (s.ncli_threads ≡ length free)
unfolding accept_client
Reachable_refuses free s created c h reached =
    let inv = Reachable_counted free s h reached in
    elim (Bool-cases (ltb (find_free s.slots) (length s.slots))) [
      | inl room ↦
          let few : used s.slots < length s.slots = find_free_room s.slots (ground arith) in
          rw room
            (λ e. absurd (stored _ created e), λ e. absurd (omega (arith, inv.counted, inv.size)))
      | inr full ↦
          let all : used s.slots ≡ length s.slots = find_free_full s.slots (ground arith) in
          rw full (λ e. omega (arith, inv.counted, inv.size), λ e. refl)
    ]
  where
    stored :
        (s' : Clients) (b : Bool)
        → (let r : Outcome (Clients × Bool) = returns (s', true) in if b then r else aborts)
          ≡ returns (s, false)
        → ⊥
    stored s' true e = cc e
    stored s' false e = cc e
