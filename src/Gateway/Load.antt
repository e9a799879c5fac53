-- ===== src/Gateway/Load.antt =====
-- lib/gatewayclient/load.go: the count of the requests in flight and the overloaded state, as the
-- steps that goroutines take one at a time. Counts are of requests that came and went, so they do not
-- fall below zero; a capacity is at least 1, as `New` demands.
pub mod Settled
use go_platform.Base.{
  ℕ, suc, ◌+◌, ◌-◌, ◌/◌, ◌≤◌, Bool, true, false, ◌&&◌, ◌||◌, not, List, [], ◌∷◌, ◌++◌, ltb, leb,
  if◌then◌else◌, ◌≡◌,
}

-- `max(1, capacity/4)`
unfoldable pub gap : ℕ → ℕ
gap capacity = if ltb 1 (capacity / 4) then capacity / 4 else 1

-- `low`
unfoldable pub low : ℕ → ℕ
low capacity = capacity - gap capacity

-- The condition of `Add`.
unfoldable pub at_mark : ℕ → ℕ → Bool
at_mark capacity n = leb capacity n || leb n (low capacity)

-- The `switch` of `watch`: the flag after a look at the capacity and the count.
unfoldable pub judge : Bool → ℕ → ℕ → Bool
judge on capacity n =
    if not on && leb capacity n then true else if on && leb n (low capacity) then false else on

-- Where the goroutine of `watch` is: waiting, woken, with the capacity read, with the count read too.
pub data Phase : Type 0 where
  waiting woken : Phase
  read_capacity : ℕ → Phase
  read_both : ℕ → ℕ → Phase

-- The counter, the registered capacity, the token in the channel `wake`, the flag of `watch`, that of
-- the client, the counts of the calls of `Add` that have not looked at the capacity yet, and whether a
-- registration that changed the capacity has still to poke.
pub record State : Type 0 where
  pub n : ℕ
  pub capacity : ℕ
  pub wake : Bool
  pub on : Bool
  pub overloaded : Bool
  pub adding : List ℕ
  pub registering : Bool
  pub phase : Phase

unfoldable pub poke_if : Bool → State → State
poke_if b s = record s { wake = s.wake || b }

-- `Load`: the state with which the goroutine starts.
unfoldable pub start : ℕ → State
start capacity = record {
  n = 0;
  capacity = capacity;
  wake = false;
  on = false;
  overloaded = false;
  adding = [];
  registering = false;
  phase = waiting;
}

-- One atomic step of a goroutine.
pub data Step : State → State → Type 0 where
  -- `l.n.Add(d)`
  came : (s : State) (d : ℕ) → Step s (record s { n = s.n + d; adding = (s.n + d) ∷ s.adding })
  went :
      (s : State) (d : ℕ)
      → d ≤ s.n
      → Step s (record s { n = s.n - d; adding = (s.n - d) ∷ s.adding })
  -- the rest of an `Add`: the look at the capacity, and the poke
  tested :
      (s : State) (front back : List ℕ) (v : ℕ)
      → s.adding ≡ front ++ v ∷ back
      → Step s (poke_if (at_mark s.capacity v) (record s { adding = front ++ back }))
  -- a registration with another capacity, and its poke
  registered : (s : State) (c : ℕ) → 1 ≤ c → Step s (record s { capacity = c; registering = true })
  poked :
      (s : State) → s.registering ≡ true → Step s (poke_if true (record s { registering = false }))
  -- the loop of `watch`
  took :
      (s : State)
      → s.wake ≡ true
      → s.phase ≡ waiting
      → Step s (record s { wake = false; phase = woken })
  looked : (s : State) → s.phase ≡ woken → Step s (record s { phase = read_capacity s.capacity })
  counted :
      (s : State) (c : ℕ)
      → s.phase ≡ read_capacity c
      → Step s (record s { phase = read_both c s.n })
  judged :
      (s : State) (c m : ℕ)
      → s.phase ≡ read_both c m
      → Step s (record s { on = judge s.on c m; overloaded = judge s.on c m; phase = waiting })

-- The states that a client with the capacity `c` comes to.
pub data Reach (c : ℕ) : State → Type 0 where
  begin : Reach c (start c)
  next : {s s' : State} → Reach c s → Step s s' → Reach c s'
