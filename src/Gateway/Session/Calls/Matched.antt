-- ===== src/Gateway/Session/Calls/Matched.antt =====
-- The answers that the calls of a session of lib/gatewayclient get.
use go_platform.Base.{GoString, ℕ, ◌<◌, Option, none, some, ◌≡◌, refl, arith, str_eq_iff}
use go_platform.Frame.{Frame}
use go_platform.Gateway.Session.Calls.{
  Calls, no_calls, begin_call, forget, deliver_to, deliver, Step, called, timed_out, delivered,
  Reach, begin, more,
}

-- A channel that waits is one that was made, is empty, and waits under the identifier that it was made
-- for; what a channel holds has that identifier.
record Inv (s : Calls) : Type 0 where
  made : (id : GoString) (c : ℕ) → s.pending id ≡ some c → c < s.next
  empty : (id : GoString) (c : ℕ) → s.pending id ≡ some c → s.held c ≡ none
  own : (id : GoString) (c : ℕ) → s.pending id ≡ some c → s.made_for c ≡ id
  unused : (c : ℕ) → (c < s.next → ⊥) → s.held c ≡ none
  matched : (c : ℕ) (f : Frame) → s.held c ≡ some f → s.made_for c ≡ f.id

begin_call-Inv : (id : GoString) (s : Calls) → Inv s → Inv (begin_call id s)
unfolding begin_call
begin_call-Inv id s i = record {
  made = λ k c h. ground (arith, i.made k c);
  empty = λ k c h. ground (arith, i.empty k c, i.unused s.next);
  own = λ k c h. ground (arith, i.own k c, i.made k c, str_eq_iff id k);
  unused = λ c h. ground (arith, i.unused c);
  matched = λ c f h. ground (arith, i.matched c f, i.unused s.next);
}

forget-Inv : (id : GoString) (s : Calls) → Inv s → Inv (forget id s)
unfolding forget
forget-Inv id s i = record {
  made = λ k c h. ground (arith, i.made k c);
  empty = λ k c h. ground (arith, i.empty k c);
  own = λ k c h. ground (arith, i.own k c);
  unused = i.unused;
  matched = i.matched;
}

deliver_to-Inv :
    (found : Option ℕ) (f : Frame) (s : Calls)
    → s.pending f.id ≡ found
    → Inv s
    → Inv (deliver_to found f s)
unfolding deliver_to forget
deliver_to-Inv none f s e i = forget-Inv f.id s i
deliver_to-Inv (some c) f s e i = record {
  made = λ k d h. ground (arith, i.made k d);
  empty = λ k d h. ground (arith, i.empty k d, i.own k d, i.own f.id c, str_eq_iff f.id k);
  own = λ k d h. ground (arith, i.own k d);
  unused = λ d h. ground (arith, i.unused d, i.made f.id c);
  matched = λ d g h. ground (arith, i.matched d g, i.own f.id c);
}

Reach-Inv : {s : Calls} → Reach s → Inv s
unfolding no_calls deliver
Reach-Inv begin = record {
  made = λ id c h. cc;
  empty = λ id c h. refl;
  own = λ id c h. cc;
  unused = λ c h. refl;
  matched = λ c f h. cc;
}
Reach-Inv (more r (called s id)) = begin_call-Inv id s (Reach-Inv r)
Reach-Inv (more r (timed_out s c)) = forget-Inv (s.made_for c) s (Reach-Inv r)
Reach-Inv (more r (delivered s f)) = deliver_to-Inv (s.pending f.id) f s refl (Reach-Inv r)

-- Whatever the calls, the answers and the times that are over: the reader finds the channel to which it
-- hands an answer empty, so that it never waits there.
pub Reach-never_waits :
    (s : Calls) (id : GoString) (c : ℕ) → Reach s → s.pending id ≡ some c → s.held c ≡ none
Reach-never_waits s id c r h = (Reach-Inv r).empty id c h

deliver_to-held :
    (found : Option ℕ) (g : Frame) (s : Calls) (c : ℕ) (f : Frame)
    → s.pending g.id ≡ found
    → Inv s
    → s.held c ≡ some f
    → (deliver_to found g s).held c ≡ some f
unfolding deliver_to
deliver_to-held none g s c f e i h = h
deliver_to-held (some d) g s c f e i h = ground (arith, i.empty g.id d)

step-held :
    {s t : Calls} (c : ℕ) (f : Frame) → Inv s → Step s t → s.held c ≡ some f → t.held c ≡ some f
unfolding begin_call forget deliver
step-held c f i (called s id) h = h
step-held c f i (timed_out s d) h = h
step-held c f i (delivered s g) h = deliver_to-held (s.pending g.id) g s c f refl i h

-- The answer that a call gets has the identifier of its frame, and no later step replaces it.
pub Reach-matched :
    (s t : Calls) (c : ℕ) (f : Frame)
    → Reach s
    → Step s t
    → s.held c ≡ some f
    → (s.made_for c ≡ f.id) × (t.held c ≡ some f)
Reach-matched s t c f r st h = ((Reach-Inv r).matched c f h, step-held c f (Reach-Inv r) st h)
