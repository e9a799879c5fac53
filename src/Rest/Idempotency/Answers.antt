-- ===== src/Rest/Idempotency/Answers.antt =====
-- What the client gets of a POST and of its repeat by `Once` of lib/rest/rest.go.
use mathlib.Core.List.{append_assoc, append-nil}
use go_platform.Base.{
  GoString, ℕ, ◌+◌, ◌≤◌, ◌<◌, Bool, true, false, ◌==◌, List, [], ◌∷◌, ◌++◌, Option, none, some, ◌≡◌,
  refl, sym, ◌∙◌, ap, inl, inr, arith, lit, str_eq, str_eq_refl, str_eq_sound, ltb, if◌then◌else◌,
  lookup, insert, lookup-insert, All, Bool-cases,
}
use go_platform.Rest.Idempotency.{
  Header, Stored, Idempotency, Event, write_header, write, Capture, capture_event, capture, Ran,
  Sent, wrote, idem_scope, missed, is_over, find, set_all, replay, Post, once_found, once,
}
use go_platform.Rest.Idempotency.Once.{Call, serve, stored_by, once-replayed}

-- What `net/http` sends for the calls on a writer: the status of the first call, which is 200 where that
-- is a write, and the bytes of all writes.
abbrev pub status_sent : List Event → ℕ
status_sent (write_header code ∷ es) = code
status_sent _ = 200

abbrev pub body_sent : List Event → GoString
body_sent [] = []
body_sent (write_header code ∷ es) = body_sent es
body_sent (write b ∷ es) = b ++ body_sent es

-- Writes only.
abbrev pub all_writes : List Event → Bool
all_writes [] = true
all_writes (write_header code ∷ es) = false
all_writes (write b ∷ es) = all_writes es

-- A handler answers once: a final status and then its body, or a body alone.
abbrev pub IsAnswer : List Event → Type 0
IsAnswer [] = ⊥
IsAnswer (write_header code ∷ es) = (200 ≤ code) × (all_writes es ≡ true)
IsAnswer (write b ∷ es) = all_writes es ≡ true

-- No name stands twice.
abbrev pub IsDistinct : Header → Type 0
IsDistinct [] = Unit {0}
IsDistinct ((k, v) ∷ h) = (lookup k h ≡ none) × IsDistinct h

-- The values of one name in a header that is laid over another.
abbrev pub or_else : Option (List GoString) → Option (List GoString) → Option (List GoString)
or_else none o = o
or_else (some v) o = some v

capture_event-write :
    (c : Capture) (b : GoString)
    → (c.status == 0) ≡ false
    → capture_event c (write b) ≡ record { status = c.status; body = c.body ++ b }
unfolding capture_event
capture_event-write c b coded =
    ap (λ z. record { status = if z then 200 else c.status; body = c.body ++ b }) coded

capture-writes :
    (c : Capture) (es : List Event)
    → (c.status == 0) ≡ false
    → all_writes es ≡ true
    → ((capture c es).status ≡ c.status) × ((capture c es).body ≡ c.body ++ body_sent es)
unfolding capture
capture-writes c [] coded h = (refl, sym (append-nil c.body))
capture-writes c (write_header code ∷ es) coded h = cc
capture-writes c (write b ∷ es) coded h =
    let (same, whole) =
      capture-writes (record { status = c.status; body = c.body ++ b }) es coded h in
    let step = ap (λ d. capture d es) (capture_event-write c b coded) in
    (
      ap (λ d. d.status) step ∙ same,
      ap (λ d. d.body) step ∙ whole ∙ append_assoc c.body b (body_sent es),
    )

-- What is captured of an answer is what the client gets of it.
capture-answer :
    (es : List Event)
    → IsAnswer es
    → ((capture (record { status = 0; body = [] }) es).status ≡ status_sent es)
      × ((capture (record { status = 0; body = [] }) es).body ≡ body_sent es)
unfolding capture capture_event
capture-answer [] h = absurd h
capture-answer (write_header code ∷ es) (final, writes) =
    capture-writes (record { status = code; body = [] }) es (ground arith) writes
capture-answer (write b ∷ es) writes =
    capture-writes (record { status = 200; body = b }) es refl writes

lookup-set_all :
    (k : GoString) (h w : Header)
    → IsDistinct h
    → lookup k (set_all h w) ≡ or_else (lookup k h) (lookup k w)
unfolding lookup set_all
lookup-set_all k [] w d = refl
lookup-set_all k ((j, v) ∷ h) w (alone, d) =
    lookup-set_all k h (insert j v w) d
    ∙ ap (or_else (lookup k h)) (lookup-insert j k v w)
    ∙ elim (Bool-cases (str_eq j k)) [
      | inl same ↦
          let absent : lookup k h ≡ none =
            ap (λ i. lookup i h) (sym (str_eq_sound j k same)) ∙ alone in
          rw (same, absent) refl
      | inr other ↦ rw other refl
    ]

-- A name of the header of a repeat.
lookup-replayed :
    (k : GoString) (h w : Header)
    → IsDistinct h
    → str_eq (lit "Idempotency-Replayed") k ≡ false
    → lookup k (insert (lit "Idempotency-Replayed") (lit "true" ∷ []) (set_all h w))
      ≡ or_else (lookup k h) (lookup k w)
lookup-replayed k h w d other =
    lookup-insert (lit "Idempotency-Replayed") k (lit "true" ∷ []) (set_all h w)
    ∙ rw other (lookup-set_all k h w d)

-- The repeat of what `ran` has sent: the status and the bytes that its client got, under its header, of
-- which `k` is a name, laid over the header `w` of the writer, and marked.
abbrev pub IsRepeat : {D : Type 0} → Ran D → Header → GoString → Sent → Type 0
IsRepeat ran w k sent =
    (h : Header) × (es : List Event) × (sent ≡ wrote h es)
    × (status_sent es ≡ status_sent ran.events)
    × (body_sent es ≡ body_sent ran.events)
    × (lookup (lit "Idempotency-Replayed") h ≡ some (lit "true" ∷ []))
    × (lookup k h ≡ or_else (lookup k ran.header) (lookup k w))

module _ (hash_of : GoString → GoString) {D : Type 0} (p : Post) (now finished : ℕ) (w : Header)
    (do_post : Header → D → Ran D) (db : D) where
  abbrev kept : Stored
  kept = stored_by hash_of now finished p w do_post db

  replay-IsRepeat :
      (w' : Header) (k : GoString)
      → IsAnswer (do_post w db).events
      → IsDistinct (do_post w db).header
      → str_eq (lit "Idempotency-Replayed") k ≡ false
      → IsRepeat (do_post w db) w' k (replay kept w')
  unfolding replay
  replay-IsRepeat w' k answer distinct other =
      let (status, body) = capture-answer (do_post w db).events answer in
      (
        _,
        _,
        refl,
        status,
        append-nil _ ∙ body,
        lookup-insert (lit "Idempotency-Replayed") (lit "Idempotency-Replayed") _ _
            ∙ rw (str_eq_refl (lit "Idempotency-Replayed")) refl,
        lookup-replayed k (do_post w db).header w' distinct other,
      )

  live : (ttl time : ℕ) → time ≤ finished + ttl → is_over ttl time kept ≡ false
  unfolding is_over
  live ttl time h = ground arith

  all_live :
      (ttl : ℕ) (between : List (Call D))
      → All (λ c. (c.now ≤ finished + ttl) × (c.finished ≤ finished + ttl)) between
      → All (λ c. (is_over ttl c.now kept ≡ false) × (is_over ttl c.finished kept ≡ false)) between
  all_live ttl [] h = tt
  all_live ttl (c ∷ cs) (h, hs) =
      ((live ttl c.now h.0, live ttl c.finished h.1), all_live ttl cs hs)

  first_sent :
      (i : Idempotency)
      → str_eq p.key [] ≡ false
      → find hash_of i now (idem_scope p.user p.path) p.key p.raw ≡ missed
      → (once hash_of now finished p w do_post (some i) db).sent
        ≡ wrote (do_post w db).header (do_post w db).events
  unfolding once once_found
  first_sent i keyed none_found = rw (keyed, none_found) refl

-- A POST under a key that is not empty, of which the store has no live entry, whose handler answers
-- once (a final status and then its body, or a body alone), with a status below 500 and no name twice
-- in its header, and its repeat with the same user, path, key and body: whatever requests are served
-- between, as long as every lookup and return of them, and the lookup of the repeat, is within the
-- time to live of the return of the first. Then the first gets what its handler sent; the repeat
-- leaves the database and the store as they are and gets the same status and the same bytes, with the
-- header of the first over its own, marked Idempotency-Replayed.
pub once-answers :
    (hash_of : GoString → GoString) {D : Type 0} (p : Post) (now finished now' finished' : ℕ)
    (w w' : Header) (do_post do_post' : Header → D → Ran D) (between : List (Call D))
    (i : Idempotency) (db : D) (k : GoString)
    → str_eq p.key [] ≡ false
    → find hash_of i now (idem_scope p.user p.path) p.key p.raw ≡ missed
    → IsAnswer (do_post w db).events
    → status_sent (do_post w db).events < 500
    → IsDistinct (do_post w db).header
    → All (λ c. (c.now ≤ finished + i.ttl) × (c.finished ≤ finished + i.ttl)) between
    → now' ≤ finished + i.ttl
    → str_eq (lit "Idempotency-Replayed") k ≡ false
    → (let first = once hash_of now finished p w do_post (some i) db in
        let later = serve hash_of between first.idem first.db in
        let again = once hash_of now' finished' p w' do_post' later.0 later.1 in
        (first.sent ≡ wrote (do_post w db).header (do_post w db).events)
        × IsRepeat (do_post w db) w' k again.sent
        × (again.db ≡ later.1)
        × (again.idem ≡ later.0))
once-answers hash_of p now finished now' finished' w w' do_post do_post' between i db k keyed
      none_found answer below distinct early soon other =
    let (status, body) = capture-answer (do_post w db).events answer in
    let fine : ltb (kept hash_of p now finished w do_post db).status 500 ≡ true = ground arith in
    let same =
      once-replayed hash_of p now finished now' finished' w w' do_post do_post' between i db keyed
        none_found fine (all_live hash_of p now finished w do_post db i.ttl between early)
        (live hash_of p now finished w do_post db i.ttl now' soon) in
    let repeat = replay-IsRepeat hash_of p now finished w do_post db w' k answer distinct other in
    (
      first_sent hash_of p now finished w do_post db i keyed none_found,
      rw same repeat,
      ap (λ r. r.db) same,
      ap (λ r. r.idem) same,
    )
