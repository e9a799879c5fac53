-- ===== src/Rest/Idempotency/Once.antt =====
-- `Once` of lib/rest/rest.go over a row of requests, one after another.
use mathlib.Core.Path.{subst}
use go_platform.Base.{
  GoString, ℕ, Bool, true, false, not, List, [], ◌∷◌, Option, none, some, ◌≡◌, refl, sym, ap, ◌∙◌,
  arith, str_eq, str_eq_iff, str_eq_refl, str_eq_sound, ltb, length, if◌then◌else◌, lookup, insert,
  lookup-insert, Map, All, Bool-cases, inl, inr,
}
use go_platform.Rest.Idempotency.{
  Header, Stored, Idempotency, Capture, capture, Ran, store_key, idem_scope, Found, missed,
  conflict, hit, is_over, find, prune, store, replay, Reply, Post, run_only, once_found, once,
}

prune-keeps :
    (ttl now : ℕ) (k : GoString) (s : Stored) (m : Map Stored)
    → is_over ttl now s ≡ false
    → lookup k m ≡ some s
    → lookup k (prune ttl now m) ≡ some s
unfolding lookup prune
prune-keeps ttl now k s [] fresh h = cc
prune-keeps ttl now k s ((j, t) ∷ m) fresh h = elim (Bool-cases (str_eq j k)) [
  | inl same ↦ (let e : t ≡ s = ground arith in ground (arith, ap (is_over ttl now) e))
  | inr other ↦ ground (arith, prune-keeps ttl now k s m fresh)
]

-- The store has the time to live `ttl` and holds `s` under `k`.
abbrev pub Holds : ℕ → GoString → Stored → Option Idempotency → Type 0
Holds ttl k s none = ⊥
Holds ttl k s (some i) = (i.ttl ≡ ttl) × (lookup k i.m ≡ some s)

module _ (hash_of : GoString → GoString) where
  room-keeps :
      (b : Bool) (ttl now : ℕ) (k : GoString) (s : Stored) (m : Map Stored)
      → is_over ttl now s ≡ false
      → lookup k m ≡ some s
      → lookup k (if b then prune ttl now m else m) ≡ some s
  room-keeps true ttl now k s m fresh h = prune-keeps ttl now k s m fresh h
  room-keeps false ttl now k s m fresh h = h

  store-keeps :
      (i : Idempotency) (now : ℕ) (scope key raw : GoString) (w : Header) (c : Capture)
      (k : GoString) (s : Stored)
      → is_over i.ttl now s ≡ false
      → str_eq (store_key scope key) k ≡ false
      → lookup k i.m ≡ some s
      → lookup k (store hash_of i now scope key raw w c).m ≡ some s
  unfolding store
  store-keeps i now scope key raw w c k s fresh other h =
      lookup-insert (store_key scope key) k _ _
      ∙ rw other (room-keeps (ltb 10000 (length i.m)) i.ttl now k s i.m fresh h)

  -- What a lookup under the key of a live entry finds is never a miss.
  find_present :
      (i : Idempotency) (now : ℕ) (scope key raw : GoString) (s : Stored)
      → is_over i.ttl now s ≡ false
      → lookup (store_key scope key) i.m ≡ some s
      → find hash_of i now scope key raw
        ≡ (if not (str_eq s.hash (hash_of raw)) then conflict else hit s)
  unfolding find
  find_present i now scope key raw s fresh h = ground arith

  never : (b : Bool) (s : Stored) → (if b then conflict else hit s) ≡ missed → ⊥
  never true s e = cc
  never false s e = cc

  stored_if :
      (b : Bool) (i : Idempotency) (m : Map Stored) (k : GoString) (s : Stored)
      → lookup k m ≡ some s
      → lookup k i.m ≡ some s
      → Holds i.ttl k s (some (if b then record i { m = m } else i))
  stored_if true i m k s h h' = (refl, h)
  stored_if false i m k s h h' = (refl, h')

  stored_now :
      (b : Bool) (i : Idempotency) (k : GoString) (s : Stored) (m : Map Stored)
      → b ≡ true
      → Holds i.ttl k s (some (if b then record i { m = insert k s m } else i))
  stored_now true i k s m e = (refl, lookup-insert k k s m ∙ rw (str_eq_refl k) refl)
  stored_now false i k s m e = cc

  module _ {D : Type 0} (now finished : ℕ) (p : Post) (w : Header)
      (do_post : Header → D → Ran D) where
    abbrev key_of : GoString
    key_of = store_key (idem_scope p.user p.path) p.key

    found-keeps :
        (i : Idempotency) (f : Found) (db : D) (k : GoString) (s : Stored)
        → is_over i.ttl finished s ≡ false
        → (f ≡ missed → str_eq key_of k ≡ false)
        → lookup k i.m ≡ some s
        → Holds i.ttl k s (once_found hash_of now finished p w do_post i f db).idem
    unfolding once_found store
    found-keeps i conflict db k s fresh other h = (refl, h)
    found-keeps i (hit t) db k s fresh other h = (refl, h)
    found-keeps i missed db k s fresh other h =
        let c = capture (record { status = 0; body = [] }) (do_post w db).events in
        stored_if (ltb c.status 500) i _ k s
          (store-keeps i finished (idem_scope p.user p.path) p.key p.raw (do_post w db).header c k s
            fresh (other refl) h)
          h

    missed-other :
        (i : Idempotency) (k : GoString) (s : Stored)
        → is_over i.ttl now s ≡ false
        → lookup k i.m ≡ some s
        → find hash_of i now (idem_scope p.user p.path) p.key p.raw ≡ missed
        → str_eq key_of k ≡ false
    missed-other i k s fresh h none_found = elim (Bool-cases (str_eq key_of k)) [
      | inl same ↦
          let here : lookup key_of i.m ≡ some s =
            ap (λ j. lookup j i.m) (str_eq_sound key_of k same) ∙ h in
          let found = find_present i now (idem_scope p.user p.path) p.key p.raw s fresh here in
          absurd (never (not (str_eq s.hash (hash_of p.raw))) s (sym found ∙ none_found))
      | inr other ↦ other
    ]

    Holds-if :
        (b : Bool) (ttl : ℕ) (k : GoString) (s : Stored) (x y : Reply D)
        → Holds ttl k s x.idem
        → Holds ttl k s y.idem
        → Holds ttl k s (if b then x else y).idem
    Holds-if true ttl k s x y hx hy = hx
    Holds-if false ttl k s x y hx hy = hy

    -- Whatever the request, a live entry of the store stays as it is.
    once-Holds :
        (ttl : ℕ) (o : Option Idempotency) (db : D) (k : GoString) (s : Stored)
        → is_over ttl now s ≡ false
        → is_over ttl finished s ≡ false
        → Holds ttl k s o
        → Holds ttl k s (once hash_of now finished p w do_post o db).idem
    unfolding once run_only
    once-Holds ttl none db k s fresh late h = absurd h
    once-Holds ttl (some i) db k s fresh late h = Holds-if (str_eq p.key []) ttl k s _ _ h (
        subst
          (λ t.
            Holds t k s
              (once_found hash_of now finished p w do_post i
                (find hash_of i now (idem_scope p.user p.path) p.key p.raw) db).idem)
          h.0
          (found-keeps i (find hash_of i now (idem_scope p.user p.path) p.key p.raw) db k s
            (ap (λ t. is_over t finished s) h.0 ∙ late)
            (missed-other i k s (ap (λ t. is_over t now s) h.0 ∙ fresh) h.1) h.1))

    -- The entry that a first POST leaves.
    abbrev pub stored_by : D → Stored
    stored_by db =
        let ran = do_post w db in
        let c = capture (record { status = 0; body = [] }) ran.events in
        record {
          hash = hash_of p.raw;
          status = c.status;
          header = ran.header;
          body = c.body;
          at = finished;
        }

    once-first :
        (i : Idempotency) (db : D)
        → str_eq p.key [] ≡ false
        → find hash_of i now (idem_scope p.user p.path) p.key p.raw ≡ missed
        → ltb (stored_by db).status 500 ≡ true
        → Holds i.ttl key_of (stored_by db) (once hash_of now finished p w do_post (some i) db).idem
    unfolding once once_found store
    once-first i db keyed none_found fine =
        rw (keyed, none_found)
          (stored_now (ltb (stored_by db).status 500) i key_of (stored_by db) _ fine)

    repeat_if :
        (b : Bool) (i : Idempotency) (db : D) (s : Stored)
        → b ≡ true
        → once_found hash_of now finished p w do_post i (if not b then conflict else hit s) db
          ≡ record { sent = replay s w; db = db; idem = some i }
    unfolding once_found
    repeat_if true i db s e = refl
    repeat_if false i db s e = cc

    -- The answer to a POST whose entry is live.
    once-repeated :
        (ttl : ℕ) (o : Option Idempotency) (db : D) (s : Stored)
        → str_eq p.key [] ≡ false
        → is_over ttl now s ≡ false
        → s.hash ≡ hash_of p.raw
        → Holds ttl key_of s o
        → once hash_of now finished p w do_post o db
          ≡ record { sent = replay s w; db = db; idem = o }
    unfolding once
    once-repeated ttl none db s keyed fresh same h = absurd h
    once-repeated ttl (some i) db s keyed fresh same h =
        let fresh' = ap (λ t. is_over t now s) h.0 ∙ fresh in
        let found = find_present i now (idem_scope p.user p.path) p.key p.raw s fresh' h.1 in
        rw (keyed, found)
          (repeat_if (str_eq s.hash (hash_of p.raw)) i db s ((str_eq_iff _ _).1 same))

-- A POST on its way: the times of its lookup and of its handler's return, its writer's header and its handler.
pub record Call (D : Type 0) : Type 0 where
  pub now : ℕ
  pub finished : ℕ
  pub post : Post
  pub header : Header
  pub handler : Header → D → Ran D

module _ (hash_of : GoString → GoString) {D : Type 0} where
  abbrev pub serve_one : Call D → Option Idempotency → D → Reply D
  serve_one c o db = once hash_of c.now c.finished c.post c.header c.handler o db

  -- One POST after another; the store and the database at the end.
  abbrev pub serve : List (Call D) → Option Idempotency → D → Option Idempotency × D
  serve [] o db = (o, db)
  serve (c ∷ cs) o db = serve cs (serve_one c o db).idem (serve_one c o db).db

  serve-Holds :
      (cs : List (Call D)) (ttl : ℕ) (o : Option Idempotency) (db : D) (k : GoString) (s : Stored)
      → All (λ c. (is_over ttl c.now s ≡ false) × (is_over ttl c.finished s ≡ false)) cs
      → Holds ttl k s o
      → Holds ttl k s (serve cs o db).0
  serve-Holds [] ttl o db k s fresh h = h
  serve-Holds (c ∷ cs) ttl o db k s fresh h = serve-Holds cs ttl _ _ k s fresh.1 (
      once-Holds hash_of c.now c.finished c.post c.header c.handler ttl o db k s fresh.0.0 fresh.0.1
        h)

  -- A POST under a key that the store has no live entry of, answered below 500, and its repeat, with
  -- the same user, path, key and body: whatever requests are served between, as long as the time to
  -- live is not over at any lookup or return of them, the repeat leaves the database as it is and gets the answer that
  -- the first one got.
  pub once-replayed :
      (p : Post) (now finished now' finished' : ℕ) (w w' : Header)
      (do_post do_post' : Header → D → Ran D) (between : List (Call D)) (i : Idempotency) (db : D)
      → str_eq p.key [] ≡ false
      → find hash_of i now (idem_scope p.user p.path) p.key p.raw ≡ missed
      → ltb (stored_by hash_of now finished p w do_post db).status 500 ≡ true
      → All
          (λ c.
            (is_over i.ttl c.now (stored_by hash_of now finished p w do_post db) ≡ false)
            × (is_over i.ttl c.finished (stored_by hash_of now finished p w do_post db) ≡ false))
          between
      → is_over i.ttl now' (stored_by hash_of now finished p w do_post db) ≡ false
      → (let ran = once hash_of now finished p w do_post (some i) db in
          let later = serve between ran.idem ran.db in
          once hash_of now' finished' p w' do_post' later.0 later.1 ≡ record {
            sent = replay (stored_by hash_of now finished p w do_post db) w';
            db = later.1;
            idem = later.0;
          })
  once-replayed p now finished now' finished' w w' do_post do_post' between i db keyed none_found
        fine early soon =
      once-repeated hash_of now' finished' p w' do_post' i.ttl _ _
        (stored_by hash_of now finished p w do_post db) keyed soon refl
        (serve-Holds between i.ttl _ _ _ _ early
          (once-first hash_of now finished p w do_post i db keyed none_found fine))
