-- ===== src/Registry/Written.antt =====
-- The write of a value in registry/registry.go, over a transaction.
use go_platform.Base.{GoString, [], ◌∷◌, lit, some, ◌≡◌, refl, inl, ap, ◌∙◌}
use go_platform.Pgtx.Doer.{Doer, IsDoer}
use go_platform.Rest.Row.{Result, ok, err, read_body}
use go_platform.Rest.Handler.{HttpRequest, Answer, sent}
use go_platform.Rest.Many.{json_answer}
use go_platform.Rest.Many.Listed.{
  IsScalar, call_scalar-IsScalar, OrRefused, OrRefused-map, IsRead, transact_reading-Done,
}
use go_platform.Registry.{
  Registry, JsonValue, Sendable, ValueBody, VariantType, variant_of, and_then, check_write, typed,
}
use go_platform.Registry.Typed.{IsAddressed, check_write-IsAddressed, Fits, typed-Fits}
use go_platform.Registry.Handlers.{
  map_ok, accepted, write_body, write_args, write_step, checked, write_accepted, write,
}

and_then-ok :
    {A B : Type 0} (a : Result A) (f : A → Result B) {b : B}
    → and_then a f ≡ ok b
    → (x : A) × (a ≡ ok x) × (f x ≡ ok b)
unfolding and_then
and_then-ok (err p) f h = cc
and_then-ok (ok a) f h = (a, refl, h)

module _ {F V W : Type 0} (g : Registry F V W) where
  -- A body that is accepted is one that was read, with its type and with its value.
  accepted-ok :
      (x : GoString × ValueBody) {raw : GoString} {b : ValueBody} {t : VariantType} {v : Sendable}
      → accepted g x ≡ ok ((raw, b), t, v)
      → (x ≡ (raw, b)) × (check_write b ≡ ok t) × (typed g b ≡ ok v)
  unfolding accepted map_ok
  accepted-ok (raw', b') h =
      let (t', found, h') = and_then-ok (check_write b') _ h in
      let (v', sent', h'') = and_then-ok (typed g b') _ h' in (cc, cc, cc)

  module _ (run : Doer W) (d : IsDoer run) (r : HttpRequest) where
    -- What a write that changed the database has established.
    abbrev pub IsWritten : W → Answer → W → Type 0
    IsWritten w a after =
        (raw : GoString) × (b : ValueBody) × (t : VariantType) × (v : Sendable) × (read_body
            g.read_value g.no_value r.raw
          ≡ ok (raw, b))
        × IsAddressed b
        × (variant_of b.type_name ≡ some t)
        × ((j : JsonValue F) × (g.parse_value b.value ≡ some j) × Fits g t.sql j v)
        × (id : GoString) × IsScalar [] g.scalar_of
            (g.api (lit "registry_write")
              ((lit "id", g.text_value b.id)
                ∷ (lit "key", g.text_value b.key)
                ∷ (lit "subkey", g.text_value b.subkey)
                ∷ (lit "valuename", g.text_value (some b.value_name))
                ∷ (lit "type", g.code_value t.code)
                ∷ (lit "data", g.typed_value v t.sql)
                ∷ [])
              w)
            id after
        × (a ≡ sent (json_answer (g.written_text id b.value_name b.type_name)))

    IsWritten-body :
        (body : Result ((GoString × ValueBody) × VariantType × Sendable)) (w : W)
        → write_body g r.raw ≡ body
        → OrRefused (IsWritten w) w (checked g run r body (write_accepted g run r) w)
    unfolding checked write_accepted write_body write_step write_args
    IsWritten-body (err p) w known = inl (p, refl, refl)
    IsWritten-body (ok ((raw, b), t, v)) w known =
        let (x, taken, h) =
          and_then-ok (read_body g.read_value g.no_value r.raw) (accepted g) known in
        let (same, checked', fits) = accepted-ok x h in
        let (addressed, found) = check_write-IsAddressed b t checked' in
        OrRefused-map
          (IsRead (write_step g b t v)
            (λ id. json_answer (g.written_text id b.value_name b.type_name)) w)
          (IsWritten w) _
          (λ a after (id, ran, answer). (
            raw,
            b,
            t,
            v,
            taken ∙ ap ok same,
            addressed,
            found,
            typed-Fits g b t v found fits,
            id,
            call_scalar-IsScalar [] g.scalar_of _ ran,
            answer,
          ))
          (transact_reading-Done run d r raw (λ id. 200) (write_step g b t v)
            (λ id. json_answer (g.written_text id b.value_name b.type_name)) w)

-- A write of a value over a transaction either is refused, and the database is as it was, or
-- api.registry_write ran for a body that has a name, a key by its UUID or its alias, one of the five
-- types, and a JSON value of that type, with the key, subkey, name and id of the body, the code of the
-- type, and the value under the SQL type that the type is pinned to; the answer is made of the id that it
-- returned.
pub write-IsWritten :
    {F V W : Type 0} (g : Registry F V W) (run : Doer W) (d : IsDoer run) (r : HttpRequest) (w : W)
    → OrRefused (IsWritten g run d r w) w (write g run r w)
unfolding write
write-IsWritten g run d r w = IsWritten-body g run d r (write_body g r.raw) w refl
