-- ===== src/Schema/Emit/Order.antt =====
-- emit.js: the order of models and fields does not show in the outputs.
use ores_lib_core.Base.{◌≡◌, ◌↔◌, refl, List, map, In, NoDup, sort_by-order}
use ores_lib_core.Schema.Ir.{Field, Model}
use ores_lib_core.Schema.Emit.{
  by_name, fields_by_name, definition, emit_json_schema, typescript_model, emit_typescript,
}

-- Documents of the same models, with names that differ, have the same JSON Schema and the same
-- TypeScript whatever the order of the models is.
pub emit_order :
    (ir ir' : List Model)
    → NoDup (map (λ model. model.name) ir)
    → NoDup (map (λ model. model.name) ir')
    → ((m : Model) → In m ir ↔ In m ir')
    → (emit_json_schema ir ≡ emit_json_schema ir') × (emit_typescript ir ≡ emit_typescript ir')
unfolding emit_json_schema emit_typescript by_name
emit_order ir ir' n n' same =
    let e = sort_by-order (λ model. model.name) ir ir' n n' same in (rw e refl, rw e refl)

-- Models of one name with the same fields, whose names differ, have the same definition in the JSON
-- Schema and the same TypeScript interface whatever the order of the fields is.
pub model_order :
    (a b : Model)
    → a.name ≡ b.name
    → NoDup (map (λ field. field.name) a.fields)
    → NoDup (map (λ field. field.name) b.fields)
    → ((f : Field) → In f a.fields ↔ In f b.fields)
    → (definition a ≡ definition b) × (typescript_model a ≡ typescript_model b)
unfolding definition typescript_model fields_by_name
model_order a b name n m same =
    let e = sort_by-order (λ field. field.name) a.fields b.fields n m same in
    (rw e (rw name refl), rw e (rw name refl))
