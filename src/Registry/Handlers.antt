-- ===== src/Registry/Handlers.antt =====
-- The handlers of registry/registry.go.
use go_platform.Base.{GoString, [], ◌∷◌, ◌++◌, Option, none, some, lit, str_eq, if◌then◌else◌, Map}
use go_platform.Pgtx.Explain.{other}
use go_platform.Pgtx.Doer.{Doer}
use go_platform.Query.{Values}
use go_platform.Rest.Row.{Result, ok, err, uuid_id_of, read_body, call_row, Step, stop, row}
use go_platform.Rest.Handler.{HttpRequest, Sent, Answer, failed}
use go_platform.Rest.Many.{
  Reading, broke, read, transact_reading, call, call_scalar, json_answer, call_rows,
}
use go_platform.Registry.{
  Registry, ValueBody, VariantType, Sendable, get_value, and_then, uuid_param, text_param, key_ref,
  named_key, check_write, typed,
}

module _ {F V W : Type 0} (g : Registry F V W) where
  -- The arguments of `list`: three identifiers, each of them optional.
  unfoldable pub list_args : Values → Result (Map V)
  list_args q = and_then (uuid_param q (lit "id")) (λ id.
      and_then (uuid_param q (lit "key")) (λ key. and_then (uuid_param q (lit "subkey")) (λ subkey.
        ok (
          (lit "id", g.text_value id)
          ∷ (lit "key", g.text_value key)
          ∷ (lit "subkey", g.text_value subkey)
          ∷ []))))

  unfoldable pub keys_args : Values → Result (Map V)
  keys_args q = and_then (uuid_param q (lit "id")) (λ id.
      and_then (uuid_param q (lit "root")) (λ root.
        and_then (uuid_param q (lit "parent")) (λ parent. ok (
          (lit "id", g.text_value id)
          ∷ (lit "root", g.text_value root)
          ∷ (lit "parent", g.text_value parent)
          ∷ (lit "key", g.text_value (text_param q (lit "key")))
          ∷ []))))

  unfoldable pub ref_args : GoString × Option GoString → Map V
  ref_args (key, subkey) =
      (lit "key", g.text_value (some key)) ∷ (lit "subkey", g.text_value subkey) ∷ []

  unfoldable pub value_args : (GoString × Option GoString) × GoString → Map V
  value_args (ref, name) = (lit "valuename", g.text_value (some name)) ∷ ref_args ref

  -- The function of a set, or the extended one.
  unfoldable pub set_fn : GoString → Values → GoString
  set_fn fn q = if str_eq (get_value q (lit "extended")) (lit "true") then fn ++ lit "_ex" else fn

  unfoldable pub map_ok : {A B : Type 0} → (A → B) → Result A → Result B
  map_ok f a = and_then a (λ x. ok (f x))

  unfoldable pub write_args : ValueBody → VariantType → Sendable → Map V
  write_args b t v =
      (lit "id", g.text_value b.id)
      ∷ (lit "key", g.text_value b.key)
      ∷ (lit "subkey", g.text_value b.subkey)
      ∷ (lit "valuename", g.text_value (some b.value_name))
      ∷ (lit "type", g.code_value t.code)
      ∷ (lit "data", g.typed_value v t.sql)
      ∷ []

  -- A body that may be written: its type and its value.
  unfoldable pub accepted :
      GoString × ValueBody → Result ((GoString × ValueBody) × VariantType × Sendable)
  accepted (raw, b) = and_then (check_write b) (λ t. map_ok (λ v. ((raw, b), t, v)) (typed g b))

  unfoldable pub write_body :
      Option GoString → Result ((GoString × ValueBody) × VariantType × Sendable)
  write_body raw = and_then (read_body g.read_value g.no_value raw) accepted

  -- The closure of `write`.
  unfoldable pub write_step : ValueBody → VariantType → Sendable → W → Reading GoString W
  write_step b t v w =
      call_scalar [] g.scalar_of (g.api (lit "registry_write") (write_args b t v) w)

  -- The closure of `read`: the row of the value.
  unfoldable pub row_read : Step W → Reading GoString W
  row_read (stop e w) = broke e w
  row_read (row out w) = read out w

  unfoldable pub no_content : Sent
  no_content = record { status = 204; etag = []; location = []; body = [] }

  module _ (run : Doer W) (r : HttpRequest) where
    unfoldable pub checked : {A : Type 0} → Result A → (A → W → Answer × W) → W → Answer × W
    checked (err p) next w = (failed p, w)
    checked (ok a) next w = next a w

    -- `list`, `keys`, `enumKeys` and `enumValues`
    unfoldable pub list : Values → W → Answer × W
    list q = call_rows g.texts (g.api (set_fn (lit "api.registry") q)) run r (list_args q)

    unfoldable pub keys : Values → W → Answer × W
    keys q = call_rows g.texts (g.api (lit "registry_key")) run r (keys_args q)

    unfoldable pub enum_keys : Values → W → Answer × W
    enum_keys q =
        call_rows g.texts (g.api (lit "registry_enum_key")) run r (map_ok ref_args (key_ref q))

    unfoldable pub enum_values : Values → W → Answer × W
    enum_values q =
        call_rows g.texts (g.api (set_fn (lit "api.registry_enum_value") q)) run r
          (map_ok ref_args (key_ref q))

    -- `read`
    unfoldable pub read_value : Values → W → Answer × W
    read_value q = checked (named_key q) (λ k.
        transact_reading run r [] (λ out. 200)
          (λ w'. row_read (call_row other (g.api (lit "registry_read") (value_args k) w')))
          json_answer)

    -- `write`
    unfoldable pub write_accepted : (GoString × ValueBody) × VariantType × Sendable → W → Answer × W
    write_accepted ((raw, b), t, v) =
        transact_reading run r raw (λ id. 200) (write_step b t v)
          (λ id. json_answer (g.written_text id b.value_name b.type_name))

    unfoldable pub write : W → Answer × W
    write = checked (write_body r.raw) write_accepted

    -- `exec`
    unfoldable pub exec : GoString → Map V → W → Answer × W
    exec fn args =
        transact_reading run r [] (λ rs. 204) (λ w'. call (g.api fn args w')) (λ rs. no_content)

    -- `deleteValueByID`, `deleteValue`, `deleteKey` and `deleteTree`
    unfoldable pub delete_value_by_id : W → Answer × W
    delete_value_by_id = checked (uuid_id_of r.id) (λ id. exec (lit "registry_delete_value") (
        (lit "id", g.id_value id)
        ∷ (lit "key", g.text_value none)
        ∷ (lit "subkey", g.text_value none)
        ∷ (lit "valuename", g.text_value none)
        ∷ []))

    unfoldable pub delete_value : Values → W → Answer × W
    delete_value q =
        checked (named_key q)
          (λ k. exec (lit "registry_delete_value") ((lit "id", g.text_value none) ∷ value_args k))

    unfoldable pub delete_key : Values → W → Answer × W
    delete_key q = checked (key_ref q) (λ ref. exec (lit "registry_delete_key") (ref_args ref))

    unfoldable pub delete_tree : Values → W → Answer × W
    delete_tree q = checked (key_ref q) (λ ref. exec (lit "registry_delete_tree") (ref_args ref))
