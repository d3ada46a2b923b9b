-- ===== src/RequireSend/Report.antt =====
-- require-send.mjs: formatReport, the choice of the files, and main.
pub mod Laws
use Prim.Native.Nat.{min}
use ores_lib_core.Base.{
  ℕ, zero, suc, ◌+◌, ◌-◌, ◌&&◌, ◌||◌, not, Bool, true, false, Option, none, some, List, [], ◌∷◌,
  ◌++◌, Text, text, StrictEq, nat_eq, list_eq, ◌==◌, ltb, length, any, map, filter, includes, join,
  split, decimal, starts_with, ends_with, includes_text, if◌then◌else◌,
}
use ores_lib_core.RequireSend.{fold}
use ores_lib_core.RequireSend.Scopes.{Finding}
use ores_lib_core.RequireSend.Analyze.{Language, gleam, dart, rust, analyze_source}

pub record Result : Type 0 where
  pub file : Text
  pub findings : List Finding

-- A finding with its file.
abbrev pub Located : Type 0
Located = Text × Finding

-- SKIP_DIR
unfoldable pub skip_dirs : List Text
skip_dirs =
    text "node_modules"
    ∷ text "target"
    ∷ text "dist"
    ∷ text "build"
    ∷ text "out"
    ∷ text "vendor"
    ∷ text "coverage"
    ∷ text ".git"
    ∷ text ".worktrees"
    ∷ text "_to_delete"
    ∷ text ".next"
    ∷ text ".ores-lint"
    ∷ text ".vendor"
    ∷ text "deps"
    ∷ text "third_party"
    ∷ text "thirdparty"
    ∷ text "external"
    ∷ text "submodules"
    ∷ text ".r2g"
    ∷ []

-- The alternatives of TEST_RE, on a path with its case folded.
unfoldable pub is_test_path : Text → Bool
is_test_path rel =
    any (λ dir. starts_with rel dir || includes_text rel (b'/' ∷ dir))
      (text "test/" ∷ text "tests/" ∷ text "spec/" ∷ [])
    || any (ends_with rel) (text "_test.dart" ∷ text "_test.gleam" ∷ text "_test.rs" ∷ [])
    || includes_text rel (text ".test.")
    || includes_text rel (text ".spec.")

unfoldable pub is_linted_kind : Text → Bool
is_linted_kind rel =
    ends_with rel (text ".rs") || ends_with rel (text ".dart") || ends_with rel (text ".gleam")

-- rel === n || rel.startsWith(`${n}/`)
unfoldable pub is_inside : Text → Text → Bool
is_inside rel repo = rel == repo || starts_with rel (repo ++ b'/' ∷ [])

-- The filter of trackedFiles on one path; the flag is INCLUDE_TESTS.
unfoldable pub is_tracked : Bool → List Text → Text → Bool
is_tracked include_tests nested rel =
    is_linted_kind rel
    && not (any (includes skip_dirs) (split b'/' rel))
    && not (any (is_inside rel) nested)
    && (include_tests || not (is_test_path (fold rel)))

abbrev pub is_present : Text → Bool
is_present [] = false
is_present (c ∷ s) = true

-- `output` is what `git ls-files -z` prints, none if it fails.
unfoldable pub tracked_files : Bool → List Text → Option Text → List Text
tracked_files include_tests nested none = []
tracked_files include_tests nested (some output) =
    filter (is_tracked include_tests nested) (filter is_present (split 0 output))

unfoldable pub language_of : Text → Language
language_of rel =
    if ends_with rel (text ".gleam")
    then gleam
    else if ends_with rel (text ".dart")
    then dart
    else rust

-- all.push({ ...f, file })
unfoldable pub located : List Result → List Located
located [] = []
located (r ∷ rs) = map (λ f. (r.file, f)) r.findings ++ located rs

-- results.filter((r) => r.findings.length)
abbrev pub with_findings : List Result → List Result
with_findings results = filter (λ r. not (length r.findings == 0)) results

abbrev pub clean : ℕ → Text
clean count =
    if count == 0
    then text "ores-lint[require-send]: no Rust/Dart/Gleam source to scan\n"
    else text "ores-lint[require-send]: clean ("
      ++ decimal count
      ++ text " file"
      ++ (if count == 1 then [] else text "s")
      ++ text " scanned)\n"

abbrev pub heading : ℕ → List Result → List Located → List Text
heading limit results all =
    (text "ores-lint[require-send]: "
      ++ decimal (length all)
      ++ text " finding(s) across 1 rule(s) in "
      ++ decimal (length (with_findings results))
      ++ text " file(s)")
    ∷ []
    ∷ text "  warning: logging chain never delivered (ores custom rule)  [require-send]"
    ∷ (text "    "
        ++ decimal (length all)
        ++ text " instance(s); showing "
        ++ decimal (min (length all) limit)
        ++ text ":")
    ∷ []

unfoldable pub example_line : Located → Text
example_line (file, f) =
    text "      " ++ file ++ text ":" ++ decimal f.line ++ text ":" ++ decimal f.col

-- all.slice(0, MAX)
unfoldable pub first : ℕ → List Located → List Located
first zero all = []
first (suc n) [] = []
first (suc n) (f ∷ all) = f ∷ first n all

unfoldable pub more_line : ℕ → ℕ → List Text
more_line limit n =
    if ltb limit n then (text "      ... and " ++ decimal (n - limit) ++ text " more") ∷ [] else []

-- The lines of the report; `limit` is MAX.
unfoldable pub report_lines : ℕ → List Result → List Text
report_lines limit results =
    let all = located results in
    heading limit results all
    ++ map example_line (first limit all)
    ++ more_line limit (length all)
    ++ [] ∷ []

unfoldable pub format_report : ℕ → List Result → Text
format_report limit results =
    if length (located results) == 0
    then clean (length results)
    else join (text "\n") (report_lines limit results) ++ text "\n"

abbrev pub result_of : Text → Option (List Finding) → Option Result
result_of rel none = none
result_of rel (some findings) = some (record { file = rel; findings = findings })

abbrev pub add_result : Option Result → Option (List Result) → Option (List Result)
add_result (some r) (some rs) = some (r ∷ rs)
add_result _ _ = none

-- The result for one file, if it can be read, before the others.
abbrev pub scan_file : Text → Option Text → Option (List Result) → Option (List Result)
scan_file rel none rest = rest
scan_file rel (some source) rest =
    add_result (result_of rel (analyze_source source (language_of rel))) rest

-- The results for the files; `none` if an analysis does not end.
unfoldable pub scan_files : (Text → Option Text) → List Text → Option (List Result)
scan_files read_file [] = some []
scan_files read_file (rel ∷ rels) = scan_file rel (read_file rel) (scan_files read_file rels)

abbrev pub print_results : ℕ → Option (List Result) → Option Text
print_results limit none = none
print_results limit (some results) = some (format_report limit results)

-- What main prints, by the settings of the environment, the listing of git and the reads.
unfoldable pub main : Bool → Bool → ℕ → List Text → Option Text → (Text → Option Text) → Option Text
main skip include_tests limit nested output read_file =
    if skip
    then some (text "ores-lint[require-send]: skipped (ORES_LINT_SKIP_REQUIRE_SEND=1)\n")
    else print_results limit (scan_files read_file (tracked_files include_tests nested output))
