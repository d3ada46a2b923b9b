-- ===== src/Base/Lists.antt =====
-- Lists as the source uses them: tests over all or some elements, membership, sets in insertion
-- order, and lengths over the native numbers.
use Prim.Native.Nat.{ℕ, zero, suc, ◌+◌, ◌≤◌}
use mathlib.Core.Path.{◌≡◌, refl, ap}
use mathlib.Core.Logic.{◌↔◌, ◌⊎◌, inl, inr}
use mathlib.Core.Bool.{Bool, true, false, ◌&&◌, ◌||◌}
use mathlib.Core.Option.{Option, none, some}
use mathlib.Core.List.{List, [], ◌∷◌, ◌++◌, map}
use native.Mathlib.Omega.{arith}
use ores_lib_core.Base.Tests.{StrictEq, ◌==◌, eq_iff, eq_refl, and_iff, if◌then◌else◌, Bool-cases}

module _ {ℓ} {A : Type ℓ} where
  abbrev pub length : List A → ℕ
  length [] = 0
  length (x ∷ xs) = suc (length xs)

  abbrev pub get_elem? : List A → ℕ → Option A
  get_elem? [] i = none
  get_elem? (x ∷ xs) zero = some x
  get_elem? (x ∷ xs) (suc i) = get_elem? xs i

  -- xs.slice(n)
  abbrev pub drop : ℕ → List A → List A
  drop zero xs = xs
  drop (suc n) [] = []
  drop (suc n) (x ∷ xs) = drop n xs

  -- xs.every(p)
  abbrev pub every : (A → Bool) → List A → Bool
  every p [] = true
  every p (x ∷ xs) = p x && every p xs

  -- xs.some(p)
  abbrev pub any : (A → Bool) → List A → Bool
  any p [] = false
  any p (x ∷ xs) = p x || any p xs

  -- xs.filter(p)
  abbrev pub filter : (A → Bool) → List A → List A
  filter p [] = []
  filter p (x ∷ xs) = let rest = filter p xs in if p x then x ∷ rest else rest

  -- xs.find(p)
  abbrev pub find : (A → Bool) → List A → Option A
  find p [] = none
  find p (x ∷ xs) = let rest = find p xs in if p x then some x else rest

module _ {A : Type 0} where
  -- Membership, and lists without repetition, by recursion.
  abbrev pub In : A → List A → Type 0
  In a [] = ⊥
  In a (x ∷ xs) = (a ≡ x) ⊎ In a xs

  abbrev pub NoDup : List A → Type 0
  NoDup [] = Unit
  NoDup (x ∷ xs) = (¬ In x xs) × NoDup xs

  pub every-In : (p : A → Bool) (a : A) (xs : List A) → every p xs ≡ true → In a xs → p a ≡ true
  every-In p a [] h i = absurd i
  every-In p a (x ∷ xs) h i = ground (arith, every-In p a xs)

  pub find-eq-some :
      (p : A → Bool) (a : A) (xs : List A) → find p xs ≡ some a → In a xs × (p a ≡ true)
  find-eq-some p a [] h = cc
  find-eq-some p a (x ∷ xs) h = ground (arith, find-eq-some p a xs)

  pub any_mono :
      (p q : A → Bool) (xs : List A)
      → ((a : A) → p a ≡ true → q a ≡ true)
      → any p xs ≡ true
      → any q xs ≡ true
  any_mono p q [] h k = k
  any_mono p q (x ∷ xs) h k = ground (arith, h x, any_mono p q xs h)

  pub length-append : (xs ys : List A) → length (xs ++ ys) ≡ length xs + length ys
  length-append [] ys = omega arith
  length-append (x ∷ xs) ys = omega (arith, length-append xs ys)

  pub In-append : (a : A) (xs ys : List A) → In a (xs ++ ys) ↔ (In a xs ⊎ In a ys)
  In-append a [] ys = (λ h. inr h, λ h. elim h [ inl k ↦ absurd k | inr k ↦ k ])
  In-append a (x ∷ xs) ys = ground (arith, In-append a xs ys)

  pub any-In : (p : A → Bool) (a : A) (xs : List A) → In a xs → p a ≡ true → any p xs ≡ true
  any-In p a [] h q = absurd h
  any-In p a (x ∷ xs) h q = ground (arith, any-In p a xs)

  pub any-eq-false : (p : A → Bool) (a : A) (xs : List A) → any p xs ≡ false → In a xs → p a ≡ false
  any-eq-false p a [] h i = absurd i
  any-eq-false p a (x ∷ xs) h i = ground (arith, any-eq-false p a xs)

  pub In-filter :
      (p : A → Bool) (a : A) (xs : List A) → In a (filter p xs) ↔ (In a xs × (p a ≡ true))
  In-filter p a [] = (λ h. absurd h, λ h. h.0)
  In-filter p a (x ∷ xs) = ground (arith, In-filter p a xs)

  pub filter-append :
      (p : A → Bool) (xs ys : List A) → filter p (xs ++ ys) ≡ filter p xs ++ filter p ys
  filter-append p [] ys = refl
  filter-append p (x ∷ xs) ys = elim (Bool-cases (p x)) [
    | inl t ↦ rw t (ap (◌∷◌ x) (filter-append p xs ys))
    | inr f ↦ rw f (filter-append p xs ys)
  ]

module _ {A : Type 0} (P : A → Type 0) where
  abbrev pub All : List A → Type 0
  All [] = Unit
  All (x ∷ xs) = P x × All xs

  pub All-In : (a : A) (xs : List A) → All xs → In a xs → P a
  All-In a [] h i = absurd i
  All-In a (x ∷ xs) (p, h) (inl e) = rw e p
  All-In a (x ∷ xs) (p, h) (inr i) = All-In a xs h i

  pub All-append : (xs ys : List A) → All xs → All ys → All (xs ++ ys)
  All-append [] ys h k = k
  All-append (x ∷ xs) ys (p, h) k = (p, All-append xs ys h k)

pub All-map :
    {A : Type 0} {P Q : A → Type 0} (xs : List A) → All P xs → ((a : A) → P a → Q a) → All Q xs
All-map [] h f = tt
All-map (x ∷ xs) (p, h) f = (f x p, All-map xs h f)

-- A test over all elements decides a predicate that it decides of each.
pub every_iff :
    {A : Type 0} (p : A → Bool) (P : A → Type 0) (xs : List A)
    → ((a : A) → (p a ≡ true) ↔ P a)
    → (every p xs ≡ true) ↔ All P xs
every_iff p P [] h = (λ e. tt, λ e. refl)
every_iff p P (x ∷ xs) h =
    let (to, from) = every_iff p P xs h in
    let (split, join) = and_iff (p x) (every p xs) in
    ((λ e. ((h x).0 (split e).0, to (split e).1)), (λ (a, b). join ((h x).1 a, from b)))

module _ {A B : Type 0} where
  pub In-map : (f : A → B) (a : A) (xs : List A) → In a xs → In (f a) (map f xs)
  In-map f a [] h = absurd h
  In-map f a (x ∷ xs) (inl e) = inl (ap f e)
  In-map f a (x ∷ xs) (inr h) = inr (In-map f a xs h)

  pub In-map_inv :
      (f : A → B) (b : B) (xs : List A) → In b (map f xs) → (a : A) × In a xs × (b ≡ f a)
  In-map_inv f b [] h = absurd h
  In-map_inv f b (x ∷ xs) (inl e) = (x, inl refl, e)
  In-map_inv f b (x ∷ xs) (inr h) = let (a, i, e) = In-map_inv f b xs h in (a, inr i, e)

  pub length-map : (f : A → B) (xs : List A) → length (map f xs) ≡ length xs
  length-map f [] = refl
  length-map f (x ∷ xs) = ap suc (length-map f xs)

module _ {A : Type 0} ⦃e : StrictEq A⦄ where
  -- xs.includes(a)
  unfoldable pub includes : List A → A → Bool
  includes [] a = false
  includes (x ∷ xs) a = a == x || includes xs a

  pub includes_iff : (xs : List A) (a : A) → (includes xs a ≡ true) ↔ In a xs
  unfolding includes
  includes_iff [] a = (λ h. cc, λ h. absurd h)
  includes_iff (x ∷ xs) a = ground (arith, eq_iff a x, includes_iff xs a)

  -- [...new Set(xs)]: the first occurrence of each value, in order.
  unfoldable pub distinct_from : List A → List A → List A
  distinct_from seen [] = []
  distinct_from seen (x ∷ xs) =
      let rest = distinct_from seen xs in
      let more = distinct_from (x ∷ seen) xs in if includes seen x then rest else x ∷ more

  unfoldable pub distinct : List A → List A
  unfolding distinct_from
  distinct xs = distinct_from [] xs

  In-distinct_from :
      (a : A) (seen xs : List A)
      → In a (distinct_from seen xs) ↔ (In a xs × (includes seen a ≡ false))
  unfolding distinct_from includes
  In-distinct_from a seen [] = (λ h. absurd h, λ h. h.0)
  In-distinct_from a seen (x ∷ xs) =
      ground
        (arith, In-distinct_from a seen xs, In-distinct_from a (x ∷ seen) xs, eq_iff a x, eq_refl a)

  pub In-distinct : (a : A) (xs : List A) → In a (distinct xs) ↔ In a xs
  unfolding distinct includes
  In-distinct a xs = ground (arith, In-distinct_from a [] xs)

  NoDup-distinct_from : (seen xs : List A) → NoDup (distinct_from seen xs)
  unfolding distinct_from includes
  NoDup-distinct_from seen [] = tt
  NoDup-distinct_from seen (x ∷ xs) = ground (
    arith,
    NoDup-distinct_from seen xs,
    NoDup-distinct_from (x ∷ seen) xs,
    In-distinct_from x (x ∷ seen) xs,
    eq_refl x,
  )

  pub NoDup-distinct : (xs : List A) → NoDup (distinct xs)
  unfolding distinct
  NoDup-distinct xs = NoDup-distinct_from [] xs

  -- new Set(xs).size
  abbrev pub set_size : List A → ℕ
  set_size xs = length (distinct xs)

  -- `new Set(xs).size === xs.length`, as the recursion that it amounts to.
  distinct_from-length-le : (seen xs : List A) → length (distinct_from seen xs) ≤ length xs
  unfolding distinct_from
  distinct_from-length-le seen [] = omega arith
  distinct_from-length-le seen (x ∷ xs) =
      ground (arith, distinct_from-length-le seen xs, distinct_from-length-le (x ∷ seen) xs)

  full_distinct :
      (seen xs : List A)
      → length (distinct_from seen xs) ≡ length xs
      → NoDup xs × ((a : A) → In a xs → includes seen a ≡ false)
  unfolding distinct_from includes
  full_distinct seen [] h = (tt, λ a i. absurd i)
  full_distinct seen (x ∷ xs) h = elim (Bool-cases (includes seen x)) [
    | inl t ↦ absurd (ground (arith, distinct_from-length-le seen xs))
    | inr f ↦
        let (nd, fresh) = full_distinct (x ∷ seen) xs (ground arith) in
        (
          (λ i. cc (fresh x i, eq_refl x), nd),
          λ a i. elim i [ inl e ↦ rw e f | inr j ↦ ground (arith, fresh a j) ],
        )
  ]

  pub set_size_full : (xs : List A) → set_size xs ≡ length xs → NoDup xs
  unfolding distinct
  set_size_full xs h = (full_distinct [] xs h).0

-- The value at a key: the first entry with that key.
module _ {A B : Type 0} ⦃e : StrictEq A⦄ where
  unfoldable pub lookup : A → List (A × B) → Option B
  lookup k [] = none
  lookup k ((j, v) ∷ r) = let rest = lookup k r in if j == k then some v else rest
