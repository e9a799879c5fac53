-- ===== src/Rest/Many/Listed.antt =====
-- The answers of the readers of many rows of lib/rest.
use go_platform.Base.{
  GoString, ℕ, ◌≤◌, List, [], ◌∷◌, Option, none, some, ◌≡◌, refl, sym, ◌∙◌, ap, ◌⊎◌, inl, inr, lit,
  map, ℤ, pos,
}
use go_platform.Problem.{Problem}
use go_platform.Pgtx.Explain.{other}
use go_platform.Pgtx.Direct.{done}
use go_platform.Pgtx.Doer.{Doer, Commits, IsDoer}
use go_platform.Query
use go_platform.Query.{Params, Values, QueryError}
use go_platform.Query.Sound.{parse-IsAccepted}
use go_platform.Rest.Row.{validation, Called, raised, rows, not_found}
use go_platform.Rest.Read.{project}
use go_platform.Rest.Handler.{HttpRequest, Sent, Answer, failed, sent, req_of}
use go_platform.Rest.Many.{
  Reading, broke, read, ◌>>=◌, reading_outcome, transact_reading, call, call_scalar, json_answer,
  Texts, Lister, list_args, list_step, page_answer, list_page, list,
}

-- A problem, with the work as it was, or `P` of the answer and the work behind it.
abbrev pub OrRefused : {W : Type 0} → (Answer → W → Type 0) → W → Answer × W → Type 0
OrRefused P w (a, after) = ((p : Problem) × (a ≡ failed p) × (after ≡ w)) ⊎ P a after

pub OrRefused-map :
    {W : Type 0} (P Q : Answer → W → Type 0) {w : W} (x : Answer × W)
    → ((a : Answer) (after : W) → P a after → Q a after)
    → OrRefused P w x
    → OrRefused Q w x
OrRefused-map P Q (a, after) f (inl h) = inl h
OrRefused-map P Q (a, after) f (inr h) = inr (f a after h)

-- The answer is made of what the closure has read.
abbrev pub IsRead : {A W : Type 0} → (W → Reading A W) → (A → Sent) → W → Answer → W → Type 0
IsRead {A} closure make w a after = (x : A) × (closure w ≡ read x after) × (a ≡ sent (make x))

abbrev pub DoneReading : {A W : Type 0} → (W → Reading A W) → (A → Sent) → W → Answer × W → Type 0
DoneReading closure make w = OrRefused (IsRead closure make w) w

module _ {A W : Type 0} (closure : W → Reading A W) (make : A → Sent) (status : A → ℕ)
    (w after : W) where
  done-read :
      (s : Reading A W) (n : ℕ)
      → closure w ≡ s
      → reading_outcome status s ≡ done after n
      → DoneReading closure make w
          (elim s [ read a w' ↦ (sent (make a), after) | broke e w' ↦ (failed not_found, after) ])
  unfolding reading_outcome
  done-read (broke e w') n e1 h = cc
  done-read (read a w') n e1 h =
      let same : w' ≡ after = cc h in inr (a, e1 ∙ ap (read a) same, refl)

  answer-read :
      (answer : Option Problem)
      → Commits (reading_outcome status (closure w)) w (answer, after)
      → DoneReading closure make w (elim answer [
        | some p ↦ (failed p, after)
        | none ↦ elim (closure w) [
          | read a w' ↦ (sent (make a), after)
          | broke e w' ↦ (failed not_found, after)
        ]
      ])
  answer-read none (n, h) = done-read (closure w) n refl h
  answer-read (some p) h = inl (p, refl, h)

pub transact_reading-Done :
    {A W : Type 0} (run : Doer W) (d : IsDoer run) (r : HttpRequest) (payload : GoString)
    (status : A → ℕ) (closure : W → Reading A W) (make : A → Sent) (w : W)
    → DoneReading closure make w (transact_reading run r payload status closure make w)
unfolding transact_reading
transact_reading-Done run d r payload status closure make w =
    answer-read closure make status w _ _
      (d.commits (req_of r payload) (λ w'. reading_outcome status (closure w')) w)

pub read-bind :
    {A B W : Type 0} (s : Reading A W) (f : A → W → Reading B W) {b : B} {w : W}
    → (s >>= f) ≡ read b w
    → (a : A) × (w' : W) × (s ≡ read a w') × (f a w' ≡ read b w)
read-bind (broke e w') f h = cc
read-bind (read a w') f h = (a, w', refl, h)

pub call-rows :
    {W : Type 0} (c : Called W) {rs : List GoString} {w : W} → call c ≡ read rs w → c ≡ rows rs w
unfolding call
call-rows (raised e w') h = cc
call-rows (rows rs' w') h = cc

-- A call returned rows, and the first is `n` by its reader, or `zeroed` where it is NULL.
abbrev pub IsScalar : {A W : Type 0} → A → (GoString → Option A) → Called W → A → W → Type 0
IsScalar zeroed decode c n after =
    (cell : GoString) × (more : List GoString) × (c ≡ rows (cell ∷ more) after)
    × (((cell ≡ []) × (n ≡ zeroed)) ⊎ (decode cell ≡ some n))

decoded-read :
    {A W : Type 0} (m : Option A) (w : W) {n : A} {after : W}
    → elim m [ none ↦ broke other w | some x ↦ read x w ] ≡ read n after
    → (m ≡ some n) × (w ≡ after)
decoded-read none w h = cc
decoded-read (some x) w h = (cc h, cc h)

pub call_scalar-IsScalar :
    {A W : Type 0} (zeroed : A) (decode : GoString → Option A) (c : Called W) {n : A} {after : W}
    → call_scalar zeroed decode c ≡ read n after
    → IsScalar zeroed decode c n after
unfolding call_scalar
call_scalar-IsScalar zeroed decode (raised e w) h = cc
call_scalar-IsScalar zeroed decode (rows [] w) h = cc
call_scalar-IsScalar zeroed decode (rows ([] ∷ rs) w) {n} {after} h =
    let same : zeroed ≡ n = cc h in
    let here : w ≡ after = cc h in ([], rs, ap (rows ([] ∷ rs)) here, inl (refl, sym same))
call_scalar-IsScalar zeroed decode (rows ((c ∷ cell) ∷ rs) w) h =
    let (found, here) = decoded-read (decode (c ∷ cell)) w h in
    (c ∷ cell, rs, ap (rows ((c ∷ cell) ∷ rs)) here, inr found)

module _ {V W : Type 0} (t : Texts) (l : Lister V W) where
  -- A page was read: the count, and behind it the rows, of one search.
  abbrev pub IsPage : V → Params → W → Answer → W → Type 0
  IsPage wanted p w a after =
      (total : ℤ) × (w' : W) × (rs : List GoString) × IsScalar (pos 0) t.number_of
        (l.api l.count_fn ((lit "search", wanted) ∷ []) w) total w'
      × (l.api l.list_fn
            ((lit "search", wanted)
              ∷ (lit "limit", l.number p.limit)
              ∷ (lit "offset", l.number p.offset)
              ∷ (lit "orderby", l.order p.order_by)
              ∷ [])
            w'
          ≡ rows rs after)
      × (a
          ≡ sent (json_answer (t.page (map (project t.object p.fields) rs) total p.limit p.offset)))

  IsPage-read :
      (wanted : V) (p : Params) (w after : W) (total : ℤ) (items : List GoString) (a : Answer)
      → list_step t l wanted p w ≡ read (total, items) after
      → a ≡ sent (page_answer t l p (total, items))
      → IsPage wanted p w a after
  unfolding list_step list_args page_answer
  IsPage-read wanted p w after total items a h e =
      let (n, w', counted, h') =
        read-bind
          (call_scalar (pos 0) t.number_of (l.api l.count_fn ((lit "search", wanted) ∷ []) w)) _
          h in
      let (rs, w'', listed, h'') =
        read-bind (call (l.api l.list_fn (list_args t l wanted p) w')) _ h' in
      let here : w'' ≡ after = cc h'' in
      let same : (n, map (project t.object p.fields) rs) ≡ (total, items) = cc h'' in
      (
        n,
        w',
        rs,
        call_scalar-IsScalar (pos 0) t.number_of _ counted,
        call-rows (l.api l.list_fn (list_args t l wanted p) w') (listed ∙ ap (read rs) here),
        e ∙ ap (λ x. sent (page_answer t l p x)) (sym same),
      )

  pub list_page-IsPage :
      (run : Doer W) (d : IsDoer run) (r : HttpRequest) (raw_query : GoString) (wanted : V)
      (p : Params) (w : W)
      → OrRefused (IsPage wanted p w) w (list_page t l run r raw_query wanted p w)
  unfolding list_page
  list_page-IsPage run d r raw_query wanted p w =
      OrRefused-map (IsRead (list_step t l wanted p) (page_answer t l p) w) (IsPage wanted p w) _
        (λ a after ((total, items), h, e). IsPage-read wanted p w after total items a h e)
        (transact_reading-Done run d r raw_query (λ x. 200) (list_step t l wanted p)
          (page_answer t l p) w)

-- What `List` has established with a page: the query was translated, with a limit of 1 to 1000.
abbrev pub IsListed :
    {V W : Type 0}
    → Texts
    → Lister V W
    → (List Query.Condition → V)
    → Values
    → W
    → Answer
    → W
    → Type 0
IsListed t l search_value values w a after =
    (p : Params) × (Query.parse values ≡ Query.ok p)
    × (1 ≤ p.limit)
    × (p.limit ≤ 1000)
    × IsPage t l (search_value p.search) p w a after

module _ {V W : Type 0} (t : Texts) (l : Lister V W) (search_value : List Query.Condition → V)
    (error_text : QueryError → GoString) (run : Doer W) (d : IsDoer run) (r : HttpRequest)
    (raw_query : GoString) (values : Values) (w : W) where
  list-parsed :
      (parsed : Query.Result Params)
      → Query.parse values ≡ parsed
      → OrRefused (IsListed t l search_value values w) w (elim parsed [
        | Query.err e ↦ (failed (validation (error_text e)), w)
        | Query.ok p ↦ list_page t l run r raw_query (search_value p.search) p w
      ])
  list-parsed (Query.err e) h = inl (validation (error_text e), refl, refl)
  list-parsed (Query.ok p) h =
      let accepted = parse-IsAccepted values p h in
      OrRefused-map (IsPage t l (search_value p.search) p w) (IsListed t l search_value values w) _
        (λ a after x. (p, h, accepted.limit_min, accepted.limit_max, x))
        (list_page-IsPage t l run d r raw_query (search_value p.search) p w)

-- A list over a transaction either is refused, and the database is as it was, or answers 200 with the
-- count of api.count_<x> and the rows that api.list_<x> returned behind it for the same search, cut to
-- the selected fields, and the limit of its page is 1 to 1000.
pub list-Listed :
    {V W : Type 0} (t : Texts) (l : Lister V W) (search_value : List Query.Condition → V)
    (error_text : QueryError → GoString) (run : Doer W) (d : IsDoer run) (r : HttpRequest)
    (raw_query : GoString) (values : Values) (w : W)
    → OrRefused
        (IsListed t l search_value values w)
        w
        (list t l search_value error_text run r raw_query values w)
unfolding list
list-Listed t l search_value error_text run d r raw_query values w =
    list-parsed t l search_value error_text run d r raw_query values w (Query.parse values) refl
