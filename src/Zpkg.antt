-- ===== src/Zpkg.antt =====
-- governance/check.mjs: `parseZpkg`.
pub mod Laws
use ores_lib_core.Base.{
  ℕ, suc, Bool, true, false, not, ◌&&◌, ◌||◌, Option, none, some, List, [], ◌∷◌, ◌++◌, Text, text,
  every, length, split, strip, drop_while, starts_with, drop, includes, map, is_lower, is_upper,
  is_digit, nat_eq, list_eq, ◌==◌, leb, if◌then◌else◌,
}
use ores_lib_core.Redaction.{is_space}

-- The two Maps and the section of the loop.
pub record Manifest : Type 0 where
  pub section : Text
  pub targets : List (Text × Text)
  pub dependencies : List (Text × Text)

-- What the function returns, or the error that names a target.
pub data Parsed : Type 0 where
  parsed : Manifest → Parsed
  duplicate_target : Text → Parsed

infixl 5 ◌>>=◌
abbrev pub ◌>>=◌ : {A B : Type 0} → Option A → (A → Option B) → Option B
some a >>= f = f a
none >>= f = none

-- The characters up to a quote, and those behind it.
unfoldable pub until_quote : Text → Option (Text × Text)
until_quote [] = none
until_quote (c ∷ s) =
    let rest = until_quote s in
    if c == b'"' then some ([], s) else (rest >>= λ (inner, after). some (c ∷ inner, after))

abbrev pub nonempty : Text × Text → Option (Text × Text)
nonempty ([], after) = none
nonempty (c ∷ s, after) = some (c ∷ s, after)

-- "([^"]+)"
unfoldable pub quoted_text : Text → Option (Text × Text)
unfolding until_quote
quoted_text [] = none
quoted_text (c ∷ s) = if c == b'"' then (until_quote s >>= nonempty) else none

abbrev pub equals_sign : Text → Option Text
equals_sign [] = none
equals_sign (c ∷ s) = if c == b'=' then some (drop_while is_space s) else none

abbrev pub at_end : Text × Text → Option Text
at_end (value, []) = some value
at_end (value, c ∷ s) = none

-- \s*=\s*"([^"]+)"$
unfoldable pub assigned : Text → Option Text
unfolding quoted_text
assigned s = do after ← equals_sign (drop_while is_space s); value ← quoted_text after; at_end value

-- /^"([^"]+)"\s*=\s*"([^"]+)"$/
unfoldable pub dependency_line : Text → Option (Text × Text)
unfolding assigned
dependency_line line = do (key, after) ← quoted_text line; value ← assigned after; some (key, value)

-- /^dir\s*=\s*"([^"]+)"$/
unfoldable pub dir_line : Text → Option Text
unfolding assigned
dir_line line = if starts_with line (text "dir") then assigned (drop 3 line) else none

-- The characters before a closing bracket that ends the line.
unfoldable pub before_bracket : Text → Option Text
before_bracket [] = none
before_bracket (c ∷ s) =
    let rest = before_bracket s in
    if c == b']' then (if s == [] then some [] else none) else (rest >>= λ inner. some (c ∷ inner))

abbrev pub some_nonempty : Text → Option Text
some_nonempty [] = none
some_nonempty (c ∷ s) = some (c ∷ s)

-- /^\[([^\]]+)\]$/
unfoldable pub section_line : Text → Option Text
unfolding before_bracket
section_line [] = none
section_line (c ∷ s) = if c == b'[' then (before_bracket s >>= some_nonempty) else none

abbrev pub is_target_char : ℕ → Bool
is_target_char c = is_lower c || is_upper c || is_digit c || c == b'_' || c == b'-'

-- section.match(/^targets\.([A-Za-z0-9_-]+)$/)?.[1]
unfoldable pub target_of : Text → Option Text
target_of section =
    let name = drop 8 section in
    if starts_with section (text "targets.") && leb 1 (length name) && every is_target_char name
    then some name
    else none

-- dependencies.set(key, value)
unfoldable pub map_set : Text → Text → List (Text × Text) → List (Text × Text)
map_set key value [] = (key, value) ∷ []
map_set key value ((k, v) ∷ rest) =
    let later = map_set key value rest in if k == key then (k, value) ∷ rest else (k, v) ∷ later

abbrev pub keys : List (Text × Text) → List Text
keys entries = map (λ (k, v). k) entries

abbrev pub set_section : Text → Manifest → Manifest
set_section section manifest = record {
  section = section;
  targets = manifest.targets;
  dependencies = manifest.dependencies;
}

abbrev pub add_dependency : Option (Text × Text) → Manifest → Manifest
add_dependency none manifest = manifest
add_dependency (some (key, value)) manifest = record {
  section = manifest.section;
  targets = manifest.targets;
  dependencies = map_set key value manifest.dependencies;
}

abbrev pub add_target : Option Text → Option Text → Manifest → Parsed
add_target (some target) (some dir) manifest =
    if includes (keys manifest.targets) target
    then duplicate_target target
    else parsed record {
      section = manifest.section;
      targets = manifest.targets ++ (target, dir) ∷ [];
      dependencies = manifest.dependencies;
    }
add_target _ _ manifest = parsed manifest

abbrev pub add_content : Text → Option Text → Manifest → Parsed
add_content line (some section) manifest = parsed (set_section section manifest)
add_content line none manifest =
    if manifest.section == text "dependencies"
    then parsed (add_dependency (dependency_line line) manifest)
    else add_target (target_of manifest.section) (dir_line line) manifest

-- The body of the loop, for a line that is trimmed.
unfoldable pub parse_line : Text → Manifest → Parsed
unfolding section_line map_set
parse_line line manifest =
    if line == [] || starts_with line (text "#")
    then parsed manifest
    else add_content line (section_line line) manifest

unfoldable pub parse_lines : List Text → Parsed → Parsed
unfolding parse_line
parse_lines lines (duplicate_target t) = duplicate_target t
parse_lines [] (parsed manifest) = parsed manifest
parse_lines (line ∷ lines) (parsed manifest) =
    parse_lines lines (parse_line (strip is_space line) manifest)

-- The separator is /\r?\n/; the carriage return in front of a line feed is trimmed with the line.
unfoldable pub parse_zpkg : Text → Parsed
unfolding parse_lines
parse_zpkg source =
    parse_lines (split 10 source) (parsed record { section = []; targets = []; dependencies = [] })
