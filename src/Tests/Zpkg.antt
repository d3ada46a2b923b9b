-- ===== src/Tests/Zpkg.antt =====
-- governance/check.mjs, `parseZpkg`, at concrete inputs.
use ores_lib_core.Base.{
  ◌≡◌, refl, [], ◌∷◌, ◌++◌, Text, text, NoDup, split, split_from, strip, drop_while, drop_end,
  starts_with, includes, list_beq,
}
use ores_lib_core.Zpkg.{
  Manifest, parsed, duplicate_target, keys, parse_zpkg, parse_lines, section_line, dependency_line,
  dir_line, assigned, quoted_text, until_quote, before_bracket, target_of, map_set,
}
use ores_lib_core.Zpkg.Laws.{Extends, parse_lines-Extends}

abbrev source : Text
source =
    text "# package\r\n[targets.rust]\n  dir = \"langs/rust\"\nkind = \"lib\"\n"
    ++ text "[dependencies]\n\"a/b\"=\"^1\"\n\"a/b\" = \"^2\"\n"

abbrev manifest : Manifest
manifest = record {
  section = text "dependencies";
  targets = (text "rust", text "langs/rust") ∷ [];
  dependencies = (text "a/b", text "^2") ∷ [];
}

parses : parse_zpkg source ≡ parsed manifest
unfolding parse_zpkg text split split_from strip drop_while drop_end starts_with includes list_beq
    parse_lines section_line dependency_line dir_line assigned quoted_text until_quote
    before_bracket target_of map_set
parses = refl

refuses_repeats :
    parse_zpkg (text "[targets.go]\ndir=\"a\"\ndir=\"b\"") ≡ duplicate_target (text "go")
unfolding parse_zpkg text split split_from strip drop_while drop_end starts_with includes list_beq
    parse_lines section_line dependency_line dir_line assigned quoted_text until_quote
    before_bracket target_of map_set
refuses_repeats = refl

-- The target go is there when the section of rust is read.
abbrev go_read : Manifest
go_read = record {
  section = text "targets.rust";
  targets = (text "go", text "langs/go") ∷ [];
  dependencies = [];
}

abbrev rust_read : Manifest
rust_read = record {
  section = text "targets.rust";
  targets = (text "go", text "langs/go") ∷ (text "rust", text "langs/rust") ∷ [];
  dependencies = [];
}

reads_on : parse_lines (text "dir = \"langs/rust\"" ∷ []) (parsed go_read) ≡ parsed rust_read
unfolding parse_zpkg text split split_from strip drop_while drop_end starts_with includes list_beq
    parse_lines section_line dependency_line dir_line assigned quoted_text until_quote
    before_bracket target_of map_set
reads_on = refl

parse_lines-Extends_example :
    Extends go_read rust_read × NoDup (keys rust_read.targets) × NoDup (keys rust_read.dependencies)
parse_lines-Extends_example =
    parse_lines-Extends (text "dir = \"langs/rust\"" ∷ []) go_read rust_read ((λ i. i), tt) tt
      reads_on
