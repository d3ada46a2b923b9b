-- ===== src/SchemaIr/Compile/Paths.antt =====
-- schema-ir/index.js: the paths of the generated files are distinct.
use ores_lib_core.Base.{
  ◌≡◌, refl, sym, subst, ap, ◌∙◌, inl, inr, Bool, true, false, not, List, [], ◌∷◌, ◌++◌, map, Text,
  text, length, length-append, starts_with, drop, every, every-In, includes, includes_iff, list_beq,
  list_eq, ◌&&◌, In, In-map, In-map_inv, In-append, NoDup, NoDup-map-sort_by, sort_by, In-sort_by,
  arith, nat_eq,
}
use ores_lib_core.Redaction.{to_lower_case}
use ores_lib_core.SchemaIr.{Ir, Entity}
use ores_lib_core.SchemaIr.Compile.{File, path_of, schema_file, entries}

-- Distinct values stay distinct before a function and after an injective one.
NoDup-of_map :
    {A B C : Type 0} (f : B → C) (g : A → B) (xs : List A)
    → NoDup (map (λ x. f (g x)) xs)
    → NoDup (map g xs)
NoDup-of_map f g [] n = tt
NoDup-of_map f g (x ∷ xs) (h, n) = (
  λ i.
      (let (y, j, e) = In-map_inv g (g x) xs i in
        h (
          subst (λ c. In c (map (λ x. f (g x)) xs)) (sym (ap f e)) (In-map (λ x. f (g x)) y xs j))),
  NoDup-of_map f g xs n,
)

NoDup-map_injective :
    {A B C : Type 0} (f : B → C) (g : A → B) (xs : List A)
    → ((b d : B) → f b ≡ f d → b ≡ d)
    → NoDup (map g xs)
    → NoDup (map (λ x. f (g x)) xs)
NoDup-map_injective f g [] inj n = tt
NoDup-map_injective f g (x ∷ xs) inj (h, n) = (
  λ i.
      (let (y, j, e) = In-map_inv (λ x. f (g x)) (f (g x)) xs i in
        h (subst (λ b. In b (map g xs)) (sym (inj _ _ e)) (In-map g y xs j))),
  NoDup-map_injective f g xs inj n,
)

append-right_injective : (s xs ys : Text) → xs ++ s ≡ ys ++ s → xs ≡ ys
append-right_injective s [] [] e = refl
append-right_injective s (x ∷ xs) (y ∷ ys) e = ground (arith, append-right_injective s xs ys)
append-right_injective s [] (y ∷ ys) e =
    let l = ap length e in let a = length-append ys s in absurd (omega arith)
append-right_injective s (x ∷ xs) [] e =
    let l = ap length e in let a = length-append xs s in absurd (omega arith)

NoDup-append :
    (xs ys : List Text)
    → NoDup xs
    → NoDup ys
    → ((t : Text) → In t xs → In t ys → ⊥)
    → NoDup (xs ++ ys)
NoDup-append [] ys n m h = m
NoDup-append (x ∷ xs) ys (k, n) m h = (
  λ i. elim ((In-append x xs ys).0 i) [ inl j ↦ k j | inr j ↦ h x (inl refl) j ],
  NoDup-append xs ys n m (λ t i j. h t (inr i) j),
)

-- A test that finds a repetition
no_repeat : List Text → Bool
no_repeat [] = true
no_repeat (x ∷ xs) = not (includes xs x) && no_repeat xs

no_repeat-NoDup : (xs : List Text) → no_repeat xs ≡ true → NoDup xs
unfolding no_repeat
no_repeat-NoDup [] h = tt
no_repeat-NoDup (x ∷ xs) h =
    (λ i. ground (arith, includes_iff xs x), no_repeat-NoDup xs (ground arith))

abbrev schema_path : Text → Text
schema_path name = text "json-schema/" ++ name ++ text ".schema.json"

schema_path_injective : (m n : Text) → schema_path m ≡ schema_path n → m ≡ n
unfolding text
schema_path_injective m n e = ap (drop 12) (
    append-right_injective (text ".schema.json") (text "json-schema/" ++ m)
      (text "json-schema/" ++ n) e)

abbrev fixed_paths : List Text
fixed_paths =
    text "schema-ir.json"
    ∷ text "postgres/desired.sql"
    ∷ text "typescript/models.ts"
    ∷ text "rust/models.rs"
    ∷ text "dart/models.dart"
    ∷ text "cue/models.cue"
    ∷ []

abbrev schema_paths : List Entity → List Text
schema_paths es = map (λ entity. schema_path entity.name) es

fixed_distinct : no_repeat (text "manifest.json" ∷ fixed_paths) ≡ true
unfolding no_repeat text includes list_beq
fixed_distinct = refl

abbrev is_plain : Text → Bool
is_plain path = not (starts_with path (text "json-schema/"))

fixed_plain : every is_plain (text "manifest.json" ∷ fixed_paths) ≡ true
unfolding text starts_with
fixed_plain = refl

schema_path_plain : (name : Text) → is_plain (schema_path name) ≡ false
unfolding text starts_with
schema_path_plain name = refl

apart :
    (t : Text) (es : List Entity)
    → In t (text "manifest.json" ∷ fixed_paths)
    → In t (schema_paths es)
    → ⊥
apart t es i j =
    let (e, k, p) = In-map_inv (λ entity. schema_path entity.name) t es j in
    let plain = every-In is_plain t (text "manifest.json" ∷ fixed_paths) fixed_plain i in
    let other : is_plain t ≡ false =
      subst (λ t. is_plain t ≡ false) (sym p) (schema_path_plain e.name) in
    cc (plain, other)

paths-schema_file :
    (ir : Ir) (es : List Entity) → map path_of (map (schema_file ir) es) ≡ schema_paths es
unfolding schema_file
paths-schema_file ir [] = refl
paths-schema_file ir (e ∷ es) = ap (◌∷◌ (schema_path e.name)) (paths-schema_file ir es)

names_distinct :
    (es : List Entity)
    → NoDup (map (λ entity. to_lower_case entity.name) es)
    → NoDup (schema_paths es)
names_distinct es n =
    NoDup-map_injective schema_path (λ entity. entity.name) es schema_path_injective
      (NoDup-of_map to_lower_case (λ entity. entity.name) es n)

-- The paths of all files, the manifest first
all_distinct :
    (es : List Entity)
    → NoDup (map (λ entity. to_lower_case entity.name) es)
    → NoDup (text "manifest.json" ∷ (fixed_paths ++ schema_paths es))
all_distinct es n =
    NoDup-append (text "manifest.json" ∷ fixed_paths) (schema_paths es)
      (no_repeat-NoDup _ fixed_distinct) (names_distinct es n) (λ t. apart t es)

NoDup-map-snoc :
    (fs : List File) (f : File)
    → NoDup (map path_of fs)
    → ¬ In (path_of f) (map path_of fs)
    → NoDup (map path_of (fs ++ f ∷ []))
NoDup-map-snoc [] f n h = (λ i. i, tt)
NoDup-map-snoc (g ∷ fs) f (k, n) h = (
  λ i.
      (let (x, j, e) = In-map_inv path_of (path_of g) (fs ++ f ∷ []) i in
        elim ((In-append x fs (f ∷ [])).0 j) [
          | inl m ↦ k (subst (λ t. In t (map path_of fs)) (sym e) (In-map path_of x fs m))
          | inr m ↦ elim m [ inl q ↦ h (inl (sym (e ∙ ap path_of q))) | inr z ↦ absurd z ]
        ]),
  NoDup-map-snoc fs f n (λ i. h (inr i)),
)

sorted_before :
    (fs : List File) (f : File)
    → NoDup (map path_of (f ∷ fs))
    → NoDup (map path_of (sort_by path_of fs ++ f ∷ []))
sorted_before fs f (fresh, distinct) =
    NoDup-map-snoc (sort_by path_of fs) f (NoDup-map-sort_by path_of path_of fs distinct) λ i.
      let (g, j, e) = In-map_inv path_of (path_of f) (sort_by path_of fs) i in
      fresh (
        subst (λ t. In t (map path_of fs)) (sym e)
          (In-map path_of g fs ((In-sort_by path_of g fs).0 j)))

-- The entries in order, and the manifest after them
pub entries-NoDup :
    (ir : Ir) (sql content : Text)
    → NoDup (map (λ entity. to_lower_case entity.name) ir.entities)
    → NoDup (map path_of (entries ir sql ++ (text "manifest.json", content) ∷ []))
unfolding entries
entries-NoDup ir sql content n =
    sorted_before _ (text "manifest.json", content)
      (subst (λ ps. NoDup (text "manifest.json" ∷ (fixed_paths ++ ps)))
        (sym (paths-schema_file ir ir.entities)) (all_distinct ir.entities n))
