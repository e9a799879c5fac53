-- ===== src/Entity/Answered.antt =====
-- The PATCH of lib/entity/entity.go over a transaction that commits whatever succeeds.
use mathlib.Core.Path.{subst}
use go_platform.Base.{
  GoString, ℕ, [], none, some, ◌≡◌, sym, ap, ◌∙◌, ◌↔◌, inl, inr, arith, lit, str_eq_iff,
}
use go_platform.Pgtx.Explain.{problem}
use go_platform.Pgtx.Direct.{Request, Outcome, done}
use go_platform.Pgtx.Doer.{Doer, IsDoer}
use go_platform.Rest.Row.{ok, err, Json, etag_of, precondition, if_match, Step, stop, row, ◌>>=◌}
use go_platform.Rest.Handler.{HttpRequest, Sent, Answer, failed, sent, outcome_of, transact, req_of}
use go_platform.Rest.Writable.Guarded.{Matches}
use go_platform.Entity.{Entity, write, update_step, update_with, update, update_body, row_sent}
use go_platform.Rest.Many.Listed.{OrRefused}
use go_platform.Entity.Updated.{IsUpdated, update-IsUpdated}

-- Whatever a handler has done with success is committed.
abbrev pub IsReliable : {W : Type 0} → Doer W → Type 0
IsReliable {W} run =
    (req : Request) (handler : W → Outcome W) (w after : W) (status : ℕ)
    → handler w ≡ done after status
    → run req handler w ≡ (none, after)

transact-row :
    {W : Type 0} (run : Doer W) (reliable : IsReliable run) (r : HttpRequest) (payload : GoString)
    (status : GoString → ℕ) (step : W → Step W) (make : GoString → Sent) (w after : W)
    (out : GoString)
    → step w ≡ row out after
    → transact run r payload status step make w ≡ (sent (make out), after)
unfolding transact outcome_of
transact-row run reliable r payload status step make w after out h =
    let committed =
      reliable (req_of r payload) (λ w'. outcome_of status (step w')) w after (status out)
        (ap (outcome_of status) h) in
    rw (transact, committed, h) (ap (λ x. (sent (make out), x.1)) committed)

Matches-precondition :
    (j : Json) (tag cur : GoString)
    → Matches j tag cur
    → (precondition tag ≡ none) × (if_match j tag cur ≡ none)
unfolding precondition if_match
Matches-precondition j tag cur (there, inl any') =
    (ground (arith, str_eq_iff tag []), ground (arith, str_eq_iff tag [], str_eq_iff tag (lit "*")))
Matches-precondition j tag cur (there, inr same) = (
  ground (arith, str_eq_iff tag []),
  ground (arith, str_eq_iff tag [], str_eq_iff (etag_of j cur) tag),
)

update-answers :
    {B V W : Type 0} (e : Entity B V W) (run : Doer W) (d : IsDoer run) (reliable : IsReliable run)
    (r : HttpRequest) (w : W) (a : Answer) (after : W)
    → IsUpdated e run d r w a after
    → update e run r w ≡ (a, after)
unfolding update update_with update_step row_sent
update-answers e run d reliable r w a after
      (id, known, text, b, taken, given, valid, cur, w', shown, matches, out, set, same) =
    let (free, held) = Matches-precondition e.json r.if_match cur matches in
    let stepped : update_step e r.if_match id b w ≡ row out after =
      ap
        (λ x. x >>= λ cur' w''. elim (if_match e.json r.if_match cur') [
          | some p ↦ stop (problem p) w''
          | none ↦ write e id b w''
        ])
        shown
      ∙ ap (λ m. elim m [ some p ↦ stop (problem p) w' | none ↦ write e id b w' ]) held
      ∙ set in
    ap
      (λ i. elim i [
        | err p ↦ (failed p, w)
        | ok i' ↦ elim (precondition r.if_match) [
          | some p ↦ (failed p, w)
          | none ↦ update_with e run r i' (update_body e r.raw) w
        ]
      ])
      known
    ∙ ap
        (λ m. elim m [
          | some p ↦ (failed p, w)
          | none ↦ update_with e run r id (update_body e r.raw) w
        ])
        free
    ∙ ap (λ x. update_with e run r id x w) taken
    ∙ transact-row run reliable r text (λ x. 200) (update_step e r.if_match id b) (row_sent e) w
        after out stepped
    ∙ ap (λ x. (x, after)) (sym same)

answered-of :
    {W : Type 0} (P : Answer → W → Type 0) (w after : W) (s : Sent) (x : Answer × W)
    → x ≡ (sent s, after)
    → OrRefused P w x
    → P (sent s) after
answered-of {W} P w after s (a, w') e (inl (p, refused, same)) =
    absurd (cc (sym (ap (λ y. y.0) e) ∙ refused))
answered-of {W} P w after s (a, w') e (inr h) = subst (λ (y : Answer × W). P y.0 y.1) e h

-- Over a transaction that commits exactly what succeeds, a PATCH of an entity is answered without a
-- problem exactly where the id is a UUID, the body sets at least one field and is valid, the row is
-- visible in the version that If-Match names, or `*`, and the write gives a row: with 200, this row and
-- its ETag, and the work that was done by then.
pub update_iff :
    {B V W : Type 0} (e : Entity B V W) (run : Doer W) (d : IsDoer run) (reliable : IsReliable run)
    (r : HttpRequest) (w : W) (s : Sent) (after : W)
    → (update e run r w ≡ (sent s, after)) ↔ IsUpdated e run d r w (sent s) after
update_iff e run d reliable r w s after = (
  λ h.
      answered-of (IsUpdated e run d r w) w after s (update e run r w) h
        (update-IsUpdated e run d r w),
  update-answers e run d reliable r w (sent s) after,
)
