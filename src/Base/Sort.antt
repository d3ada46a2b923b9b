-- ===== src/Base/Sort.antt =====
-- `sort` by a text key: stable insertion sort, its order laws, and why a list without repetition
-- has only one sorted arrangement.
use mathlib.Core.List.{List, [], ◌∷◌, map}
use mathlib.Core.Path.{◌≡◌, refl, sym, subst, ap, ◌∙◌}
use mathlib.Core.Logic.{◌↔◌, ◌⊎◌, inl, inr}
use mathlib.Core.Bool.{true, false}
use native.Mathlib.Omega.{arith}
use ores_lib_core.Base.Tests.{if◌then◌else◌, nat_eq, Bool-cases}
use ores_lib_core.Base.Lists.{In, In-map, In-map_inv, NoDup, All, All-In}
use ores_lib_core.Base.Texts.{Text, text_leb}

pub text_leb_refl : (s : Text) → text_leb s s ≡ true
unfolding text_leb
text_leb_refl [] = refl
text_leb_refl (a ∷ s) = ground (arith, text_leb_refl s)

pub text_leb_total : (s t : Text) → text_leb s t ≡ false → text_leb t s ≡ true
unfolding text_leb
text_leb_total [] t h = cc
text_leb_total (a ∷ s) [] h = refl
text_leb_total (a ∷ s) (b ∷ t) h = ground (arith, text_leb_total s t)

pub text_leb_trans :
    (s t u : Text) → text_leb s t ≡ true → text_leb t u ≡ true → text_leb s u ≡ true
unfolding text_leb
text_leb_trans [] t u h k = refl
text_leb_trans (a ∷ s) [] u h k = cc
text_leb_trans (a ∷ s) (b ∷ t) [] h k = cc
text_leb_trans (a ∷ s) (b ∷ t) (c ∷ u) h k = ground (arith, text_leb_trans s t u)

pub text_leb_antisymm : (s t : Text) → text_leb s t ≡ true → text_leb t s ≡ true → s ≡ t
unfolding text_leb
text_leb_antisymm [] [] h k = refl
text_leb_antisymm [] (b ∷ t) h k = cc
text_leb_antisymm (a ∷ s) [] h k = cc
text_leb_antisymm (a ∷ s) (b ∷ t) h k = ground (arith, text_leb_antisymm s t)

module _ {A : Type 0} (key : A → Text) where
  insert : A → List A → List A
  insert x [] = x ∷ []
  insert x (y ∷ ys) =
      let later = y ∷ insert x ys in if text_leb (key x) (key y) then x ∷ y ∷ ys else later

  unfoldable pub sort_by : List A → List A
  unfolding insert
  sort_by [] = []
  sort_by (x ∷ xs) = insert x (sort_by xs)

  abbrev pub IsSorted : List A → Type 0
  IsSorted [] = Unit
  IsSorted (x ∷ xs) = All (λ y. text_leb (key x) (key y) ≡ true) xs × IsSorted xs

  In-insert : (a x : A) (xs : List A) → In a (insert x xs) ↔ ((a ≡ x) ⊎ In a xs)
  unfolding insert
  In-insert a x [] = (λ h. h, λ h. h)
  In-insert a x (y ∷ ys) = ground (arith, In-insert a x ys)

  pub In-sort_by : (a : A) (xs : List A) → In a (sort_by xs) ↔ In a xs
  unfolding sort_by
  In-sort_by a [] = (λ h. h, λ h. h)
  In-sort_by a (x ∷ xs) = ground (arith, In-insert a x (sort_by xs), In-sort_by a xs)

  NoDup-insert : (x : A) (xs : List A) → ¬ In x xs → NoDup xs → NoDup (insert x xs)
  unfolding insert
  NoDup-insert x [] h n = (λ i. i, tt)
  NoDup-insert x (y ∷ ys) h (hy, n) = elim (Bool-cases (text_leb (key x) (key y))) [
    | inl t ↦ rw t (h, (hy, n))
    | inr f ↦ rw f (
      (λ i. elim ((In-insert y x ys).0 i) [ inl e ↦ h (inl (sym e)) | inr j ↦ hy j ]),
      NoDup-insert x ys (λ i. h (inr i)) n,
    )
  ]

  pub NoDup-sort_by : (xs : List A) → NoDup xs → NoDup (sort_by xs)
  unfolding sort_by
  NoDup-sort_by [] n = tt
  NoDup-sort_by (x ∷ xs) (h, n) =
      NoDup-insert x (sort_by xs) (λ i. h ((In-sort_by x xs).0 i)) (NoDup-sort_by xs n)

  pub All-of_In : {P : A → Type 0} (xs : List A) → ((a : A) → In a xs → P a) → All P xs
  All-of_In [] h = tt
  All-of_In (x ∷ xs) h = (h x (inl refl), All-of_In xs (λ a i. h a (inr i)))

  pub All-sort_by : (P : A → Type 0) (xs : List A) → All P xs → All P (sort_by xs)
  All-sort_by P xs h = All-of_In (sort_by xs) λ a i. All-In P a xs h ((In-sort_by a xs).0 i)

  -- Distinct values of a function stay distinct.
  NoDup-map-insert :
      {B : Type 0} (f : A → B) (x : A) (xs : List A)
      → ¬ In (f x) (map f xs)
      → NoDup (map f xs)
      → NoDup (map f (insert x xs))
  unfolding insert
  NoDup-map-insert f x [] h n = (h, n)
  NoDup-map-insert f x (y ∷ ys) h (hy, n) = elim (Bool-cases (text_leb (key x) (key y))) [
    | inl t ↦ rw t (h, (hy, n))
    | inr e ↦ rw e (
      (λ i.
          let (a, j, p) = In-map_inv f (f y) (insert x ys) i in
          elim ((In-insert a x ys).0 j) [
            | inl q ↦ h (inl (sym (p ∙ ap f q)))
            | inr k ↦ hy (subst (λ b. In b (map f ys)) (sym p) (In-map f a ys k))
          ]),
      NoDup-map-insert f x ys (λ i. h (inr i)) n,
    )
  ]

  pub NoDup-map-sort_by :
      {B : Type 0} (f : A → B) (xs : List A) → NoDup (map f xs) → NoDup (map f (sort_by xs))
  unfolding sort_by
  NoDup-map-sort_by f [] n = tt
  NoDup-map-sort_by f (x ∷ xs) (h, n) =
      NoDup-map-insert f x (sort_by xs)
        (λ i.
          let (a, j, p) = In-map_inv f (f x) (sort_by xs) i in
          h (subst (λ b. In b (map f xs)) (sym p) (In-map f a xs ((In-sort_by a xs).0 j))))
        (NoDup-map-sort_by f xs n)

  All-trans :
      (x y : A) (ys : List A)
      → text_leb (key x) (key y) ≡ true
      → All (λ z. text_leb (key y) (key z) ≡ true) ys
      → All (λ z. text_leb (key x) (key z) ≡ true) ys
  All-trans x y [] h k = tt
  All-trans x y (z ∷ zs) h (p, k) = (text_leb_trans _ _ _ h p, All-trans x y zs h k)

  insert-IsSorted : (x : A) (xs : List A) → IsSorted xs → IsSorted (insert x xs)
  unfolding insert
  insert-IsSorted x [] s = (tt, tt)
  insert-IsSorted x (y ∷ ys) (b, s) = elim (Bool-cases (text_leb (key x) (key y))) [
    | inl t ↦ rw t ((t, All-trans x y ys t b), (b, s))
    | inr f ↦ rw f (
      All-of_In (insert x ys) (λ a i. elim ((In-insert a x ys).0 i) [
        | inl e ↦ rw e (text_leb_total (key x) (key y) f)
        | inr j ↦ All-In _ a ys b j
      ]),
      insert-IsSorted x ys s,
    )
  ]

  pub sort_by-IsSorted : (xs : List A) → IsSorted (sort_by xs)
  unfolding sort_by
  sort_by-IsSorted [] = tt
  sort_by-IsSorted (x ∷ xs) = insert-IsSorted x (sort_by xs) (sort_by-IsSorted xs)

-- The default `sort()` of strings.
unfoldable pub sort : List Text → List Text
unfolding sort_by
sort xs = sort_by (λ x. x) xs

abbrev pub Ascending : List Text → Type 0
Ascending = IsSorted (λ x. x)

head_le :
    (x y : Text) (ys : List Text)
    → All (λ z. text_leb y z ≡ true) ys
    → In x (y ∷ ys)
    → text_leb y x ≡ true
head_le x y ys b (inl e) = rw e (text_leb_refl y)
head_le x y ys b (inr i) = All-In _ x ys b i

tail-In : (x y a : Text) (xs ys : List Text) → x ≡ y → ¬ In x xs → In a xs → In a (y ∷ ys) → In a ys
tail-In x y a xs ys e n i (inl k) = absurd (n (subst (λ z. In z xs) (k ∙ sym e) i))
tail-In x y a xs ys e n i (inr j) = j

-- Two ascending lists without repetition that have the same members are equal.
pub Ascending-unique :
    (xs ys : List Text)
    → Ascending xs
    → NoDup xs
    → Ascending ys
    → NoDup ys
    → ((a : Text) → In a xs ↔ In a ys)
    → xs ≡ ys
Ascending-unique [] [] _ _ _ _ h = refl
Ascending-unique [] (y ∷ ys) _ _ _ _ h = absurd ((h y).1 (inl refl))
Ascending-unique (x ∷ xs) [] _ _ _ _ h = absurd ((h x).0 (inl refl))
Ascending-unique (x ∷ xs) (y ∷ ys) (bx, sx) (nx, dx) (by, sy) (ny, dy) h =
    let e : x ≡ y =
      text_leb_antisymm x y (head_le y x xs bx ((h y).1 (inl refl)))
        (head_le x y ys by ((h x).0 (inl refl))) in
    let rest : xs ≡ ys = Ascending-unique xs ys sx dx sy dy (λ a. (
      (λ i. tail-In x y a xs ys e nx i ((h a).0 (inr i))),
      (λ i. tail-In y x a ys xs (sym e) ny i ((h a).1 (inr i))),
    )) in
    cc
