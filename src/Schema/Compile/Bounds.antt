-- ===== src/Schema/Compile/Bounds.antt =====
-- index.js, validate.js: a refusal holds at most a hundred diagnostics.
use ores_lib_core.Base.{◌≤◌, ◌≡◌, subst, some, List, [], ◌∷◌, length, arith}
use ores_lib_core.Js.{Heap, Value}
use ores_lib_core.Schema.Json.{Json}
use ores_lib_core.Schema.Snapshot.{Visit, visited, failed, snapshot_json}
use ores_lib_core.Schema.Log.{Diagnostic, Log}
use ores_lib_core.Schema.Log.Bounds.{IsBounded}
use ores_lib_core.Schema.Ir.{read_document}
use ores_lib_core.Schema.Shape.Storage.{check_document}
use ores_lib_core.Schema.Shape.Bounds.{check_document-IsBounded}
use ores_lib_core.Schema.Relations.{check_relations}
use ores_lib_core.Schema.Relations.Bounds.{check_relations-IsBounded, check_collisions-IsBounded}
use ores_lib_core.Schema.Validate.{diagnose, conclude, if_empty, validate_snapshot, validate}
use ores_lib_core.Schema.Compile.{Compiled, compiled, rejected, compile_valid, compile_schema}

none_yet : IsBounded []
unfolding IsBounded
none_yet = omega arith

if_empty-IsBounded :
    (log : Log) (next : Log → Log)
    → IsBounded log
    → IsBounded (next [])
    → IsBounded (if_empty log next)
if_empty-IsBounded [] next h k = k
if_empty-IsBounded (d ∷ ds) next h k = h

diagnose-IsBounded : (value : Json) → IsBounded (diagnose value)
unfolding diagnose
diagnose-IsBounded value =
    let ir = read_document (some value) in
    if_empty-IsBounded (if_empty (check_document (some value) []) (check_relations ir)) _
      (if_empty-IsBounded (check_document (some value) []) (check_relations ir)
        (check_document-IsBounded (some value) [] none_yet)
        (check_relations-IsBounded ir [] none_yet))
      (check_collisions-IsBounded ir [] none_yet)

-- The diagnostics of a refusal, and none for a success.
abbrev AreBounded : Compiled → Type 0
AreBounded (compiled a) = Unit
AreBounded (rejected d ds) = length (d ∷ ds) ≤ 100

conclude-AreBounded :
    (value : Json) (log : Log) → IsBounded log → AreBounded (compile_valid (conclude value log))
unfolding IsBounded
conclude-AreBounded value [] h = tt
conclude-AreBounded value (d ∷ ds) h = h

validate_snapshot-AreBounded : (v : Visit Json) → AreBounded (compile_valid (validate_snapshot v))
unfolding validate_snapshot
validate_snapshot-AreBounded (visited value nodes) =
    conclude-AreBounded value (diagnose value) (diagnose-IsBounded value)
validate_snapshot-AreBounded (failed e) = omega arith

-- A document that is refused comes with at most a hundred diagnostics.
pub compile_schema-bounds :
    (heap : Heap) (input : Value) (d : Diagnostic) (ds : List Diagnostic)
    → compile_schema heap input ≡ rejected d ds
    → length (d ∷ ds) ≤ 100
unfolding compile_schema validate
compile_schema-bounds heap input d ds h =
    subst AreBounded h (validate_snapshot-AreBounded (snapshot_json heap input))
