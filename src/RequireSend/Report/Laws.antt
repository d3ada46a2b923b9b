-- ===== src/RequireSend/Report/Laws.antt =====
-- formatReport and main: the length of the report, and that main ends.
use Prim.Native.Nat.{min}
use ores_lib_core.Base.{
  ℕ, zero, suc, ◌+◌, ◌-◌, ◌≡◌, refl, Bool, true, false, Option, none, some, List, [], ◌∷◌, ◌++◌,
  ◌↔◌, map, Text, text, split, filter, ends_with, list_beq, In, In-filter, inl, inr, sym, length,
  length-append, length-map, arith, ap, ◌∙◌,
}
use ores_lib_core.RequireSend.Scopes.{Finding}
use ores_lib_core.RequireSend.Analyze.{analyze_source}
use ores_lib_core.RequireSend.Analyze.Run.{analyze_source-some}
use ores_lib_core.RequireSend.Report.{
  Result, Located, located, first, heading, example_line, more_line, report_lines, format_report,
  language_of, result_of, add_result, scan_file, scan_files, print_results, main, tracked_files,
  is_tracked, is_present, is_linted_kind,
}

length-first : (n : ℕ) (all : List Located) → length (first n all) ≡ min n (length all)
unfolding first
length-first zero all = ground arith
length-first (suc n) [] = ground arith
length-first (suc n) (f ∷ all) = ground (arith, length-first n all)

-- The findings of all files.
abbrev pub total : List Result → ℕ
total [] = 0
total (r ∷ rs) = length r.findings + total rs

length-located : (results : List Result) → length (located results) ≡ total results
unfolding located
length-located [] = refl
length-located (r ∷ rs) =
    let place : Finding → Located = λ f. (r.file, f) in
    let a = length-append (map place r.findings) (located rs) in
    let b = length-map place r.findings in let c = length-located rs in omega arith

more_line-length : (limit n : ℕ) → length (more_line limit n) ≡ min 1 (n - limit)
unfolding more_line
more_line-length limit n = ground arith

-- The report has four lines of heading, a line for each finding up to the limit, a line for the
-- number of those left out if there are any, and an empty line.
pub report_lines-length :
    (limit : ℕ) (results : List Result)
    → length (report_lines limit results)
      ≡ 5 + min limit (total results) + min 1 (total results - limit)
unfolding report_lines
report_lines-length limit results =
    let all = located results in
    let shown = map example_line (first limit all) in
    let more = more_line limit (length all) in
    let a = length-append (heading limit results all ++ shown ++ more) ([] ∷ []) in
    let b = length-append (heading limit results all ++ shown) more in
    let c = length-append (heading limit results all) shown in
    let d = length-map example_line (first limit all) in
    let e = length-first limit all in
    let f = length-located results in let g = more_line-length limit (length all) in omega arith

-- The findings of a source in a file are among the results.
abbrev pub IsScanned : Text → Text → List Result → Type 0
IsScanned rel source results =
    (findings : List Finding) × (analyze_source source (language_of rel) ≡ some findings)
    × In (record { file = rel; findings = findings }) results

-- A result is that of a file that can be read.
abbrev pub IsResultOf : (Text → Option Text) → List Text → Result → Type 0
IsResultOf read_file rels r =
    In r.file rels
    × ((source : Text) × (read_file r.file ≡ some source)
        × (analyze_source source (language_of r.file) ≡ some r.findings))

-- All readable files are scanned, and nothing else.
abbrev pub IsScan : (Text → Option Text) → List Text → List Result → Type 0
IsScan read_file rels results =
    ((rel source : Text) → In rel rels → read_file rel ≡ some source → IsScanned rel source results)
    × ((r : Result) → In r results → IsResultOf read_file rels r)

some_injective : {s t : Text} → some s ≡ some t → s ≡ t
some_injective {s} e = ap (or_else s) e
  where
    or_else : Text → Option Text → Text
    or_else d none = d
    or_else d (some t) = t

later-IsResultOf :
    (read_file : Text → Option Text) (rel : Text) (rels : List Text) (r : Result)
    → IsResultOf read_file rels r
    → IsResultOf read_file (rel ∷ rels) r
later-IsResultOf read_file rel rels r (i, scanned) = (inr i, scanned)

scan_file-IsScan :
    (read_file : Text → Option Text) (rel : Text) (rels : List Text) (o : Option Text)
    (rest : List Result)
    → read_file rel ≡ o
    → IsScan read_file rels rest
    → (results : List Result) × (scan_file rel o (some rest) ≡ some results)
      × IsScan read_file (rel ∷ rels) results
scan_file-IsScan read_file rel rels none rest e (all, only) = (
  rest,
  refl,
  (
    λ other source i read. elim i [
      | inl same ↦ absurd (cc (e, same, read))
      | inr j ↦ all other source j read
    ],
    λ r i. later-IsResultOf read_file rel rels r (only r i),
  ),
)
scan_file-IsScan read_file rel rels (some source) rest e (all, only) =
    let (findings, ends) = analyze_source-some source (language_of rel) in
    let result : Result = record { file = rel; findings = findings } in
    (
      result ∷ rest,
      ap (λ o. add_result (result_of rel o) (some rest)) ends,
      (
        λ other found i read. elim i [
          | inl same ↦
              let is_source : found ≡ source = some_injective (sym read ∙ ap read_file same ∙ e) in
              rw (same, is_source) (findings, ends, inl refl)
          | inr j ↦ let (fs, a, k) = all other found j read in (fs, a, inr k)
        ],
        λ r i. elim i [
          | inl same ↦ rw same (inl refl, (source, e, ends))
          | inr j ↦ later-IsResultOf read_file rel rels r (only r j)
        ],
      ),
    )

scan_files-IsScan :
    (read_file : Text → Option Text) (rels : List Text)
    → (results : List Result) × (scan_files read_file rels ≡ some results)
      × IsScan read_file rels results
unfolding scan_files
scan_files-IsScan read_file [] = ([], refl, ((λ rel source i read. absurd i), λ r i. absurd i))
scan_files-IsScan read_file (rel ∷ rels) =
    let (rest, e, scanned) = scan_files-IsScan read_file rels in
    let (results, f, all) = scan_file-IsScan read_file rel rels (read_file rel) rest refl scanned in
    (results, ap (scan_file rel (read_file rel)) e ∙ f, all)

abbrev pub IsListed : Bool → List Text → Text → Text → Type 0
IsListed include_tests nested output rel =
    In rel (split 0 output) × (is_tracked include_tests nested rel ≡ true)

tracked-present :
    (include_tests : Bool) (nested : List Text) (rel : Text)
    → is_tracked include_tests nested rel ≡ true
    → is_present rel ≡ true
unfolding is_tracked is_linted_kind ends_with text list_beq
tracked-present include_tests nested [] h = absurd (ground arith)
tracked-present include_tests nested (c ∷ rel) h = refl

In-tracked_files :
    (include_tests : Bool) (nested : List Text) (output rel : Text)
    → In rel (tracked_files include_tests nested (some output))
      ↔ IsListed include_tests nested output rel
unfolding tracked_files
In-tracked_files include_tests nested output rel =
    let tracked =
      In-filter (is_tracked include_tests nested) rel (filter is_present (split 0 output)) in
    let present = In-filter is_present rel (split 0 output) in
    (
      λ i. ((present.0 (tracked.0 i).0).0, (tracked.0 i).1),
      λ (i, t). tracked.1 (present.1 (i, tracked-present include_tests nested rel t), t),
    )

-- Unless it is skipped, the linter prints the report on results that are, for the listing that git
-- printed, exactly the findings of the listed files that are tracked and can be read: no analysis
-- fails to end, and no file is left out.
pub main-IsScan :
    (include_tests : Bool) (limit : ℕ) (nested : List Text) (output : Text)
    (read_file : Text → Option Text)
    → (results : List Result) × (main false include_tests limit nested (some output) read_file
        ≡ some (format_report limit results))
      × ((rel source : Text)
          → IsListed include_tests nested output rel
          → read_file rel ≡ some source
          → IsScanned rel source results)
      × ((r : Result)
          → In r results
          → IsListed include_tests nested output r.file
            × ((source : Text) × (read_file r.file ≡ some source)
                × (analyze_source source (language_of r.file) ≡ some r.findings)))
unfolding main
main-IsScan include_tests limit nested output read_file =
    let rels = tracked_files include_tests nested (some output) in
    let (results, e, (all, only)) = scan_files-IsScan read_file rels in
    (
      results,
      ap (print_results limit) e,
      λ rel source listed read.
          all rel source ((In-tracked_files include_tests nested output rel).1 listed) read,
      λ r i.
          let (j, scanned) = only r i in
          ((In-tracked_files include_tests nested output r.file).0 j, scanned),
    )
