-- ===== src/Formatter.antt =====
-- .ores-lint/eslint/formatter.mjs: the capped formatter of ESLint results. `limit` is MAX, which the
-- environment sets, and `cwd` is process.cwd(). A rule id is taken not to be the name of a property
-- of Object.prototype.
pub mod Output
pub mod Laws
use Prim.Native.Nat.{min}
use ores_lib_core.Base.{
  ℕ, zero, suc, ◌+◌, ◌-◌, Bool, true, false, not, ◌&&◌, ◌||◌, Option, none, some, List, [], ◌∷◌,
  ◌++◌, map, Text, text, length, drop, starts_with, includes, join, decimal, nat_eq, list_eq, ◌==◌,
  leb, ltb, if◌then◌else◌,
}

-- A message; `rule_id` is `none` where it is null or empty, `line` is 0 where there is none.
pub record Message : Type 0 where
  pub severity : ℕ
  pub rule_id : Option Text
  pub line : ℕ
  pub column : ℕ
  pub message : Text

pub record Result : Type 0 where
  pub file_path : Text
  pub messages : List Message

pub record Entry : Type 0 where
  pub count : ℕ
  pub examples : List Text
  pub severity : ℕ
  pub message : Text

-- The variables of the loop; `by_rule` is a Map in insertion order.
pub record Report : Type 0 where
  pub by_rule : List (Text × Entry)
  pub files : ℕ
  pub errors : ℕ
  pub warnings : ℕ
  pub parse_errors : List Text

abbrev pub start : Report
start = record { by_rule = []; files = 0; errors = 0; warnings = 0; parse_errors = [] }

-- path.replace(prefix, ""): the first occurrence goes.
unfoldable pub remove_first : Text → Text → Text
remove_first prefix [] = []
remove_first prefix (c ∷ s) =
    let rest = remove_first prefix s in
    if starts_with (c ∷ s) prefix then drop (length prefix) (c ∷ s) else c ∷ rest

abbrev pub relative_path : Text → Text → Text
relative_path cwd path = remove_first (cwd ++ text "/") path

abbrev pub new_entry : Message → Entry
new_entry m = record { count = 0; examples = []; severity = m.severity; message = m.message }

abbrev pub bump : ℕ → Text → Entry → Entry
bump limit example entry = record {
  count = suc entry.count;
  examples =
      if ltb (length entry.examples) limit then entry.examples ++ example ∷ [] else entry.examples;
  severity = entry.severity;
  message = entry.message;
}

-- byRule.get, byRule.set and the update of the entry
unfoldable pub add_entry : ℕ → Text → Message → Text → List (Text × Entry) → List (Text × Entry)
add_entry limit rule m example [] = (rule, bump limit example (new_entry m)) ∷ []
add_entry limit rule m example ((r, entry) ∷ rest) =
    let later = add_entry limit rule m example rest in
    if r == rule then (r, bump limit example entry) ∷ rest else (r, entry) ∷ later

-- if (m.severity === 2) errors++; else warnings++;
abbrev pub count_severity : Message → Report → Report
count_severity m report = record {
  by_rule = report.by_rule;
  files = report.files;
  errors = if m.severity == 2 then suc report.errors else report.errors;
  warnings = if m.severity == 2 then report.warnings else suc report.warnings;
  parse_errors = report.parse_errors;
}

abbrev pub file_message : ℕ → Text → Message → Option Text → Report → Report
file_message limit rel m none report = record {
  by_rule = report.by_rule;
  files = report.files;
  errors = report.errors;
  warnings = report.warnings;
  parse_errors =
      report.parse_errors ++ (rel ++ text ":" ++ decimal m.line ++ text ": " ++ m.message) ∷ [];
}
file_message limit rel m (some rule) report = record {
  by_rule =
      add_entry limit rule m (rel ++ text ":" ++ decimal m.line ++ text ":" ++ decimal m.column)
        report.by_rule;
  files = report.files;
  errors = report.errors;
  warnings = report.warnings;
  parse_errors = report.parse_errors;
}

-- The body of the loop over the messages.
unfoldable pub add_message : ℕ → Text → Message → Report → Report
unfolding add_entry
add_message limit rel m report = file_message limit rel m m.rule_id (count_severity m report)

unfoldable pub add_messages : ℕ → Text → List Message → Report → Report
unfolding add_message
add_messages limit rel [] report = report
add_messages limit rel (m ∷ ms) report = add_messages limit rel ms (add_message limit rel m report)

abbrev pub count_file : Report → Report
count_file report = record {
  by_rule = report.by_rule;
  files = suc report.files;
  errors = report.errors;
  warnings = report.warnings;
  parse_errors = report.parse_errors;
}

-- The body of the loop over the results.
unfoldable pub add_result : ℕ → Text → Result → Report → Report
unfolding add_messages remove_first
add_result limit cwd result report =
    if length result.messages == 0
    then report
    else add_messages limit (relative_path cwd result.file_path) result.messages (count_file report)

unfoldable pub collect_from : ℕ → Text → List Result → Report → Report
unfolding add_result
collect_from limit cwd [] report = report
collect_from limit cwd (r ∷ rs) report = collect_from limit cwd rs (add_result limit cwd r report)

abbrev pub collect : ℕ → Text → List Result → Report
collect limit cwd results = collect_from limit cwd results start

unfoldable pub labels : List (Text × Text)
labels =
    (text "semi", text "missing semicolon (ores house style)")
    ∷ (text "ores/semi", text "missing semicolon (ores house style)")
    ∷ (text "ores/require-send", text "logging chain never delivered (ores custom rule)")
    ∷ []

-- `rule in LABELS`
abbrev pub is_house_rule : Text → Bool
is_house_rule rule = includes (map (λ (k, l). k) labels) rule

-- The comparison of `sort` is not positive.
unfoldable pub comes_first : Text × Entry → Text × Entry → Bool
comes_first (r, a) (s, b) =
    (is_house_rule r && not (is_house_rule s))
    || ((is_house_rule r || not (is_house_rule s)) && leb b.count a.count)

unfoldable pub insert_rule : Text × Entry → List (Text × Entry) → List (Text × Entry)
unfolding comes_first
insert_rule x [] = x ∷ []
insert_rule x (y ∷ ys) =
    let later = insert_rule x ys in if comes_first x y then x ∷ y ∷ ys else y ∷ later

-- The stable sort of the entries.
unfoldable pub ordered : List (Text × Entry) → List (Text × Entry)
unfolding insert_rule
ordered [] = []
ordered (x ∷ xs) = insert_rule x (ordered xs)
