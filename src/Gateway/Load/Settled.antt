-- ===== src/Gateway/Load/Settled.antt =====
-- The states of the counter of lib/gatewayclient/load.go in which no step of it is left.
use go_platform.Base.{
  ℕ, ◌≤◌, ◌<◌, Bool, true, false, ◌||◌, List, [], ◌∷◌, ◌++◌, ◌≡◌, refl, sym, ◌∙◌, ap, ◌⊎◌, inl, inr,
  arith, Bool-cases, any, ◌==◌, ==_iff,
}
use go_platform.Gateway.Load.{
  gap, low, at_mark, judge, waiting, woken, read_capacity, read_both, State, poke_if, start, Step,
  came, went, tested, registered, poked, took, looked, counted, judged, Reach, begin, next,
}

-- Ready below the capacity, or overloaded above the lower mark.
abbrev pub Fits : State → Type 0
Fits s = ((s.on ≡ false) × (s.n < s.capacity)) ⊎ ((s.on ≡ true) × (low s.capacity < s.n))

judge-Fits :
    (on : Bool) (c n : ℕ)
    → 1 ≤ c
    → ((judge on c n ≡ false) × (n < c)) ⊎ ((judge on c n ≡ true) × (low c < n))
unfolding judge low gap
judge-Fits true c n h = ground arith
judge-Fits false c n h = ground arith

-- Why the flag fits, or whose step is still to come.
data Reason (s : State) : Type 0 where
  between : low s.capacity < s.n → s.n < s.capacity → Reason s
  token : s.wake ≡ true → Reason s
  to_poke : s.registering ≡ true → Reason s
  to_test : any (λ v. v == s.n) s.adding ≡ true → Reason s
  awake : s.phase ≡ woken → Reason s
  has_capacity : s.phase ≡ read_capacity s.capacity → Reason s
  has_both : s.phase ≡ read_both s.capacity s.n → Reason s
  rests : s.phase ≡ waiting → Fits s → Reason s

record Inv (s : State) : Type 0 where
  bounded : 1 ≤ s.capacity
  told : s.overloaded ≡ s.on
  reason : Reason s

any-remove :
    (p : ℕ → Bool) (front back : List ℕ) (v : ℕ)
    → any p (front ++ v ∷ back) ≡ (p v || any p (front ++ back))
any-remove p [] back v = refl
any-remove p (x ∷ front) back v = ground (arith, any-remove p front back v)

free-between : (c v n : ℕ) → v ≡ n → at_mark c v ≡ false → (low c < n) × (n < c)
unfolding at_mark
free-between c v n e h = ground arith

still-there :
    (xs front back : List ℕ) (v n : ℕ)
    → xs ≡ front ++ v ∷ back
    → any (λ x. x == n) xs ≡ true
    → (v == n) ≡ false
    → any (λ x. x == n) (front ++ back) ≡ true
still-there xs front back v n e t other =
    ap (λ b. b || any (λ x. x == n) (front ++ back)) (sym other)
    ∙ sym (any-remove (λ x. x == n) front back v)
    ∙ ap (any (λ x. x == n)) (sym e)
    ∙ t

-- A call of `Add` whose count is the current one: it pokes, or the count is between the marks.
tested-Reason :
    (s : State) (rest : List ℕ) (v : ℕ)
    → v ≡ s.n
    → Reason (poke_if (at_mark s.capacity v) (record s { adding = rest }))
unfolding poke_if
tested-Reason s rest v e = elim (Bool-cases (at_mark s.capacity v)) [
  | inl marked ↦ token (ground arith)
  | inr free ↦ let (lo, hi) = free-between s.capacity v s.n e free in between lo hi
]

keep-tested :
    (s : State) (front back : List ℕ) (v : ℕ)
    → s.adding ≡ front ++ v ∷ back
    → Reason s
    → Reason (poke_if (at_mark s.capacity v) (record s { adding = front ++ back }))
unfolding poke_if
keep-tested s front back v e (between lo hi) = between lo hi
keep-tested s front back v e (token t) = token (ground arith)
keep-tested s front back v e (to_poke t) = to_poke t
keep-tested s front back v e (to_test t) = elim (Bool-cases (v == s.n)) [
  | inl same ↦ tested-Reason s (front ++ back) v ((==_iff v s.n).0 same)
  | inr other ↦ to_test (still-there s.adding front back v s.n e t other)
]
keep-tested s front back v e (awake h) = awake h
keep-tested s front back v e (has_capacity h) = has_capacity h
keep-tested s front back v e (has_both h) = has_both h
keep-tested s front back v e (rests h f) = rests h f

token-poked : (s : State) → Reason (poke_if true (record s { registering = false }))
unfolding poke_if
token-poked s = token (ground arith)

-- A look at the capacity or the count makes no reason go.
looked-Reason :
    (s : State)
    → s.phase ≡ woken
    → Reason s
    → Reason (record s { phase = read_capacity s.capacity })
looked-Reason s h r = has_capacity refl

counted-Reason :
    (s : State) (c : ℕ)
    → s.phase ≡ read_capacity c
    → Reason s
    → Reason (record s { phase = read_both c s.n })
counted-Reason s c h (between lo hi) = between lo hi
counted-Reason s c h (token t) = token t
counted-Reason s c h (to_poke t) = to_poke t
counted-Reason s c h (to_test t) = to_test t
counted-Reason s c h (awake h') = absurd (cc (sym h ∙ h'))
counted-Reason s c h (has_capacity h') =
    has_both (ap (λ k. read_both k s.n) (let e : c ≡ s.capacity = cc (sym h ∙ h') in e))
counted-Reason s c h (has_both h') = absurd (cc (sym h ∙ h'))
counted-Reason s c h (rests h' f) = absurd (cc (sym h ∙ h'))

judged-Reason :
    (s : State) (c m : ℕ)
    → 1 ≤ s.capacity
    → s.phase ≡ read_both c m
    → Reason s
    → Reason (record s { on = judge s.on c m; overloaded = judge s.on c m; phase = waiting })
judged-Reason s c m b h (between lo hi) = between lo hi
judged-Reason s c m b h (token t) = token t
judged-Reason s c m b h (to_poke t) = to_poke t
judged-Reason s c m b h (to_test t) = to_test t
judged-Reason s c m b h (awake h') = absurd (cc (sym h ∙ h'))
judged-Reason s c m b h (has_capacity h') = absurd (cc (sym h ∙ h'))
judged-Reason s c m b h (has_both h') =
    let at_capacity : c ≡ s.capacity = cc (sym h ∙ h') in
    let at_count : m ≡ s.n = cc (sym h ∙ h') in
    rests refl (rw (at_capacity, at_count) (judge-Fits s.on s.capacity s.n b))
judged-Reason s c m b h (rests h' f) = absurd (cc (sym h ∙ h'))

step-Inv : {s s' : State} → Step s s' → Inv s → Inv s'
unfolding poke_if
step-Inv (came s d) i = record {
  bounded = i.bounded;
  told = i.told;
  reason = to_test (ground arith);
}
step-Inv (went s d h) i = record {
  bounded = i.bounded;
  told = i.told;
  reason = to_test (ground arith);
}
step-Inv (tested s front back v e) i = record {
  bounded = i.bounded;
  told = i.told;
  reason = keep-tested s front back v e i.reason;
}
step-Inv (registered s c h) i = record { bounded = h; told = i.told; reason = to_poke refl }
step-Inv (poked s h) i = record { bounded = i.bounded; told = i.told; reason = token-poked s }
step-Inv (took s t h) i = record { bounded = i.bounded; told = i.told; reason = awake refl }
step-Inv (looked s h) i = record {
  bounded = i.bounded;
  told = i.told;
  reason = looked-Reason s h i.reason;
}
step-Inv (counted s c h) i = record {
  bounded = i.bounded;
  told = i.told;
  reason = counted-Reason s c h i.reason;
}
step-Inv (judged s c m h) i = record {
  bounded = i.bounded;
  told = refl;
  reason = judged-Reason s c m i.bounded h i.reason;
}

Reach-Inv : {c : ℕ} {s : State} → 1 ≤ c → Reach c s → Inv s
unfolding start
Reach-Inv h begin = record {
  bounded = h;
  told = refl;
  reason = rests refl (inl (refl, ground arith));
}
Reach-Inv h (next r st) = step-Inv st (Reach-Inv h r)

reason-Fits :
    (s : State)
    → s.adding ≡ []
    → s.registering ≡ false
    → s.wake ≡ false
    → s.phase ≡ waiting
    → Reason s
    → Fits s
reason-Fits s added no_poke idle waits (between lo hi) = elim (Bool-cases s.on) [
  | inl on ↦ inr (on, lo)
  | inr off ↦ inl (off, hi)
]
reason-Fits s added no_poke idle waits (token t) = absurd (cc)
reason-Fits s added no_poke idle waits (to_poke t) = absurd (cc)
reason-Fits s added no_poke idle waits (to_test t) =
    absurd (let e = sym (ap (any (λ v. v == s.n)) added) ∙ t in cc e)
reason-Fits s added no_poke idle waits (awake h) = absurd (cc (sym h ∙ waits))
reason-Fits s added no_poke idle waits (has_capacity h) = absurd (cc (sym h ∙ waits))
reason-Fits s added no_poke idle waits (has_both h) = absurd (cc (sym h ∙ waits))
reason-Fits s added no_poke idle waits (rests h f) = f

-- Whatever the interleaving of the requests, the registrations and the goroutine: in a reachable
-- state where no `Add` is half done, no poke is due, no token is in the channel and the goroutine
-- waits, the client has been told the flag, and the flag is `ready` with the count below the capacity,
-- or `overloaded` with the count above the lower mark.
pub Reach-Fits :
    (c : ℕ) (s : State)
    → 1 ≤ c
    → Reach c s
    → s.adding ≡ []
    → s.registering ≡ false
    → s.wake ≡ false
    → s.phase ≡ waiting
    → (s.overloaded ≡ s.on) × Fits s
Reach-Fits c s h r added no_poke idle waits =
    ((Reach-Inv h r).told, reason-Fits s added no_poke idle waits (Reach-Inv h r).reason)
