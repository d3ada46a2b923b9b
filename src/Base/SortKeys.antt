-- ===== src/Base/SortKeys.antt =====
-- Sorting by a key that tells the elements apart does not depend on their order.
use mathlib.Core.Path.{◌≡◌, refl, sym, subst, ap, ◌∙◌}
use mathlib.Core.Logic.{◌↔◌, inl, inr}
use mathlib.Core.Bool.{true}
use mathlib.Core.List.{List, [], ◌∷◌, map}
use ores_lib_core.Base.Texts.{Text, text_leb}
use ores_lib_core.Base.Lists.{In, In-map, NoDup, All, All-In}
use ores_lib_core.Base.Sort.{
  text_leb_refl, text_leb_antisymm, sort_by, IsSorted, In-sort_by, sort_by-IsSorted, NoDup-sort_by,
}

module _ {A : Type 0} (key : A → Text) where
  NoDup-keys : (xs : List A) → NoDup (map key xs) → NoDup xs
  NoDup-keys [] n = tt
  NoDup-keys (x ∷ xs) (h, n) = (λ i. h (In-map key x xs i), NoDup-keys xs n)

  -- Elements of a list without repeated keys that have one key are one element.
  key_injective :
      (xs : List A) (a b : A) → NoDup (map key xs) → In a xs → In b xs → key a ≡ key b → a ≡ b
  key_injective [] a b n i j e = absurd i
  key_injective (x ∷ xs) a b (h, n) (inl p) (inl q) e = p ∙ sym q
  key_injective (x ∷ xs) a b (h, n) (inl p) (inr j) e =
      absurd (h (subst (λ k. In k (map key xs)) (sym e ∙ ap key p) (In-map key b xs j)))
  key_injective (x ∷ xs) a b (h, n) (inr i) (inl q) e =
      absurd (h (subst (λ k. In k (map key xs)) (e ∙ ap key q) (In-map key a xs i)))
  key_injective (x ∷ xs) a b (h, n) (inr i) (inr j) e = key_injective xs a b n i j e

  first_le :
      (x y : A) (ys : List A)
      → All (λ z. text_leb (key y) (key z) ≡ true) ys
      → In x (y ∷ ys)
      → text_leb (key y) (key x) ≡ true
  first_le x y ys b (inl e) = rw e (text_leb_refl (key y))
  first_le x y ys b (inr i) = All-In _ x ys b i

  rest-In : (x y a : A) (xs ys : List A) → x ≡ y → ¬ In x xs → In a xs → In a (y ∷ ys) → In a ys
  rest-In x y a xs ys e n i (inl k) = absurd (n (subst (λ z. In z xs) (k ∙ sym e) i))
  rest-In x y a xs ys e n i (inr j) = j

  IsSorted-unique :
      (xs ys : List A)
      → ((a b : A) → In a xs → In b xs → key a ≡ key b → a ≡ b)
      → IsSorted key xs
      → NoDup xs
      → IsSorted key ys
      → NoDup ys
      → ((a : A) → In a xs ↔ In a ys)
      → xs ≡ ys
  IsSorted-unique [] [] inj _ _ _ _ h = refl
  IsSorted-unique [] (y ∷ ys) inj _ _ _ _ h = absurd ((h y).1 (inl refl))
  IsSorted-unique (x ∷ xs) [] inj _ _ _ _ h = absurd ((h x).0 (inl refl))
  IsSorted-unique (x ∷ xs) (y ∷ ys) inj (bx, sx) (nx, dx) (by, sy) (ny, dy) h =
      let there = (h y).1 (inl refl) in
      let e : x ≡ y = inj x y (inl refl) there (
        text_leb_antisymm (key x) (key y) (first_le y x xs bx there)
          (first_le x y ys by ((h x).0 (inl refl)))) in
      let rest : xs ≡ ys =
        IsSorted-unique xs ys (λ a b i j. inj a b (inr i) (inr j)) sx dx sy dy
          (λ a. (
            (λ i. rest-In x y a xs ys e nx i ((h a).0 (inr i))),
            (λ i. rest-In y x a ys xs (sym e) ny i ((h a).1 (inr i))),
          )) in
      cc

  pub sort_by-order :
      (xs ys : List A)
      → NoDup (map key xs)
      → NoDup (map key ys)
      → ((a : A) → In a xs ↔ In a ys)
      → sort_by key xs ≡ sort_by key ys
  sort_by-order xs ys n m h =
      IsSorted-unique (sort_by key xs) (sort_by key ys)
        (λ a b i j. key_injective xs a b n ((In-sort_by key a xs).0 i) ((In-sort_by key b xs).0 j))
        (sort_by-IsSorted key xs) (NoDup-sort_by key xs (NoDup-keys xs n)) (sort_by-IsSorted key ys)
        (NoDup-sort_by key ys (NoDup-keys ys m))
        (λ a. (
          (λ i. (In-sort_by key a ys).1 ((h a).0 ((In-sort_by key a xs).0 i))),
          (λ i. (In-sort_by key a xs).1 ((h a).1 ((In-sort_by key a ys).0 i))),
        ))
