-- ===== src/Tests/TeamDirectory.antt =====
-- langs/typescript/test/fixtures/schema-compiler/team-directory.json as a heap, whose object 0 is the
-- document.
use Prim.Native.String.{String}
use ores_lib_core.Base.{ℕ, true, false, Option, none, some, List, [], ◌∷◌, text, get_elem?}
use ores_lib_core.Js.{
  Heap, Value, num, int, pos, bool, str, ref, Key, name, Slot, data_slot, Object, object_proto,
  array_proto, plain, array,
}

abbrev pub own : String → Value → Key × Slot
own k v = (name (text k), data_slot v true)

abbrev pub object_of : List (Key × Slot) → Object
object_of props = record { class = plain; proto = object_proto; size = 0; props = props }

abbrev pub array_of : ℕ → List (Key × Slot) → Object
array_of size props = record { class = array; proto = array_proto; size = size; props = props }

abbrev pub or_empty : Option Object → Object
or_empty none = object_of []
or_empty (some o) = o

abbrev pub team_directory : Heap
team_directory i = or_empty (get_elem? objects i)
  where
    objects : List Object
    objects =
        object_of (own "version" (str (text "ores.schema-ir.v1")) ∷ own "models" (ref 1) ∷ [])
        ∷ array_of 3 (own "0" (ref 2) ∷ own "1" (ref 14) ∷ own "2" (ref 35) ∷ [])
        ∷ object_of (
            own "name" (str (text "Organization"))
            ∷ own "fields" (ref 3)
            ∷ own "storage" (ref 6)
            ∷ [])
        ∷ array_of 2 (own "0" (ref 4) ∷ own "1" (ref 5) ∷ [])
        ∷ object_of (
            own "name" (str (text "id"))
            ∷ own "type" (str (text "uuid"))
            ∷ own "required" (bool true)
            ∷ own "nullable" (bool false)
            ∷ [])
        ∷ object_of (
            own "name" (str (text "name"))
            ∷ own "type" (str (text "string"))
            ∷ own "required" (bool true)
            ∷ own "nullable" (bool false)
            ∷ own "minLength" (num (int (pos 1)))
            ∷ own "maxLength" (num (int (pos 100)))
            ∷ [])
        ∷ object_of (
            own "schema" (str (text "schema_demo"))
            ∷ own "table" (str (text "organizations"))
            ∷ own "columns" (ref 7)
            ∷ own "primaryKey" (ref 10)
            ∷ own "uniqueKeys" (ref 11)
            ∷ own "foreignKeys" (ref 13)
            ∷ [])
        ∷ array_of 2 (own "0" (ref 8) ∷ own "1" (ref 9) ∷ [])
        ∷ object_of (own "field" (str (text "id")) ∷ own "name" (str (text "id")) ∷ [])
        ∷ object_of (own "field" (str (text "name")) ∷ own "name" (str (text "name")) ∷ [])
        ∷ array_of 1 (own "0" (str (text "id")) ∷ [])
        ∷ array_of 1 (own "0" (ref 12) ∷ [])
        ∷ array_of 1 (own "0" (str (text "name")) ∷ [])
        ∷ array_of 0 ([])
        ∷ object_of
            (own "name" (str (text "Member")) ∷ own "fields" (ref 15) ∷ own "storage" (ref 21) ∷ [])
        ∷ array_of 5 (
            own "0" (ref 16)
            ∷ own "1" (ref 17)
            ∷ own "2" (ref 18)
            ∷ own "3" (ref 19)
            ∷ own "4" (ref 20)
            ∷ [])
        ∷ object_of (
            own "name" (str (text "id"))
            ∷ own "type" (str (text "uuid"))
            ∷ own "required" (bool true)
            ∷ own "nullable" (bool false)
            ∷ [])
        ∷ object_of (
            own "name" (str (text "organizationId"))
            ∷ own "type" (str (text "uuid"))
            ∷ own "required" (bool true)
            ∷ own "nullable" (bool false)
            ∷ [])
        ∷ object_of (
            own "name" (str (text "displayName"))
            ∷ own "type" (str (text "string"))
            ∷ own "required" (bool true)
            ∷ own "nullable" (bool true)
            ∷ own "maxLength" (num (int (pos 120)))
            ∷ [])
        ∷ object_of (
            own "name" (str (text "enabled"))
            ∷ own "type" (str (text "boolean"))
            ∷ own "required" (bool true)
            ∷ own "nullable" (bool false)
            ∷ [])
        ∷ object_of (
            own "name" (str (text "rank"))
            ∷ own "type" (str (text "int32"))
            ∷ own "required" (bool true)
            ∷ own "nullable" (bool false)
            ∷ [])
        ∷ object_of (
            own "schema" (str (text "schema_demo"))
            ∷ own "table" (str (text "members"))
            ∷ own "columns" (ref 22)
            ∷ own "primaryKey" (ref 28)
            ∷ own "uniqueKeys" (ref 29)
            ∷ own "foreignKeys" (ref 30)
            ∷ [])
        ∷ array_of 5 (
            own "0" (ref 23)
            ∷ own "1" (ref 24)
            ∷ own "2" (ref 25)
            ∷ own "3" (ref 26)
            ∷ own "4" (ref 27)
            ∷ [])
        ∷ object_of (own "field" (str (text "id")) ∷ own "name" (str (text "id")) ∷ [])
        ∷ object_of (
            own "field" (str (text "organizationId"))
            ∷ own "name" (str (text "organization_id"))
            ∷ [])
        ∷ object_of
            (own "field" (str (text "displayName")) ∷ own "name" (str (text "display_name")) ∷ [])
        ∷ object_of (own "field" (str (text "enabled")) ∷ own "name" (str (text "enabled")) ∷ [])
        ∷ object_of (own "field" (str (text "rank")) ∷ own "name" (str (text "rank")) ∷ [])
        ∷ array_of 1 (own "0" (str (text "id")) ∷ [])
        ∷ array_of 0 ([])
        ∷ array_of 1 (own "0" (ref 31) ∷ [])
        ∷ object_of (
            own "fields" (ref 32)
            ∷ own "references" (ref 33)
            ∷ own "onDelete" (str (text "restrict"))
            ∷ [])
        ∷ array_of 1 (own "0" (str (text "organizationId")) ∷ [])
        ∷ object_of (own "model" (str (text "Organization")) ∷ own "fields" (ref 34) ∷ [])
        ∷ array_of 1 (own "0" (str (text "id")) ∷ [])
        ∷ object_of (own "name" (str (text "MemberPatch")) ∷ own "fields" (ref 36) ∷ [])
        ∷ array_of 2 (own "0" (ref 37) ∷ own "1" (ref 38) ∷ [])
        ∷ object_of (
            own "name" (str (text "displayName"))
            ∷ own "type" (str (text "string"))
            ∷ own "required" (bool false)
            ∷ own "nullable" (bool true)
            ∷ own "maxLength" (num (int (pos 120)))
            ∷ [])
        ∷ object_of (
            own "name" (str (text "enabled"))
            ∷ own "type" (str (text "boolean"))
            ∷ own "required" (bool false)
            ∷ own "nullable" (bool false)
            ∷ [])
        ∷ []
