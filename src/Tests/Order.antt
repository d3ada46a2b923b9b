-- ===== src/Tests/Order.antt =====
-- langs/typescript/src/schema-compiler/emit.js: two orders of one document.
use ores_lib_core.Base.{
  ◌≡◌, refl, ◌↔◌, inl, inr, true, false, none, some, [], ◌∷◌, text, In, NoDup, nat_eq, list_eq,
  set_size_full, distinct, includes, list_beq,
}
use ores_lib_core.Schema.Ir.{string, uuid, Field, Model}
use ores_lib_core.Schema.Emit.{definition, emit_json_schema, emit_typescript, typescript_model}
use ores_lib_core.Schema.Emit.Order.{emit_order, model_order}
use ores_lib_core.Tests.Directory.{organization, member}

turn : {A : Type 0} (a b x : A) → In x (a ∷ b ∷ []) → In x (b ∷ a ∷ [])
turn a b x (inl e) = inr (inl e)
turn a b x (inr (inl e)) = inl e
turn a b x (inr (inr i)) = absurd i

swapped : {A : Type 0} (a b x : A) → In x (a ∷ b ∷ []) ↔ In x (b ∷ a ∷ [])
swapped a b x = (turn a b x, turn b a x)

names_differ : NoDup (text "Organization" ∷ text "Member" ∷ [])
unfolding text distinct includes list_beq
names_differ = set_size_full (text "Organization" ∷ text "Member" ∷ []) refl

names_differ_too : NoDup (text "Member" ∷ text "Organization" ∷ [])
unfolding text distinct includes list_beq
names_differ_too = set_size_full (text "Member" ∷ text "Organization" ∷ []) refl

emit_order_example :
    (emit_json_schema (organization ∷ member ∷ []) ≡ emit_json_schema (member ∷ organization ∷ []))
    × (emit_typescript (organization ∷ member ∷ []) ≡ emit_typescript (member ∷ organization ∷ []))
emit_order_example =
    emit_order (organization ∷ member ∷ []) (member ∷ organization ∷ []) names_differ
      names_differ_too (swapped organization member)

abbrev id_field : Field
id_field = record {
  name = text "id";
  type = uuid;
  required = true;
  nullable = false;
  min_length = none;
  max_length = none;
}

abbrev name_field : Field
name_field = record {
  name = text "name";
  type = string;
  required = true;
  nullable = false;
  min_length = some 1;
  max_length = some 100;
}

-- The organization with its fields the other way round.
abbrev turned : Model
turned = record { name = text "Organization"; fields = name_field ∷ id_field ∷ []; storage = none }

fields_differ : NoDup (text "id" ∷ text "name" ∷ [])
unfolding text distinct includes list_beq
fields_differ = set_size_full (text "id" ∷ text "name" ∷ []) refl

fields_differ_too : NoDup (text "name" ∷ text "id" ∷ [])
unfolding text distinct includes list_beq
fields_differ_too = set_size_full (text "name" ∷ text "id" ∷ []) refl

model_order_example :
    (definition organization ≡ definition turned)
    × (typescript_model organization ≡ typescript_model turned)
model_order_example =
    model_order organization turned refl fields_differ fields_differ_too
      (swapped id_field name_field)
