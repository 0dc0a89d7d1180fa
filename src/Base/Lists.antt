-- ===== src/Base/Lists.antt =====
-- Slices: lists measured and indexed by native numbers, under the library's names.
use Prim.Native.Nat.{◌<◌, ℕ, zero, suc, ◌+◌, ◌≤◌}
use mathlib.Core.Path.{◌≡◌, refl}
use mathlib.Core.Bool.{Bool, true, false, not, ◌||◌}
use mathlib.Core.Logic.{◌⊎◌, inl, inr}
use mathlib.Core.List.{List, [], ◌∷◌, ◌++◌}
use native.Mathlib.Omega.{arith}
use turborg.Base.Tests.{if◌then◌else◌}
use turborg.Base.Equality.{Comparable, ◌==◌}

module _ {ℓ} {A : Type ℓ} where
  abbrev pub length : List A → ℕ
  length [] = 0
  length (x ∷ xs) = suc (length xs)

  abbrev pub get_or : List A → ℕ → A → A
  get_or [] i d = d
  get_or (x ∷ xs) zero d = x
  get_or (x ∷ xs) (suc i) d = get_or xs i d

  abbrev pub take : ℕ → List A → List A
  take zero xs = []
  take (suc n) [] = []
  take (suc n) (x ∷ xs) = x ∷ take n xs

  abbrev pub replicate : ℕ → A → List A
  replicate zero a = []
  replicate (suc n) a = a ∷ replicate n a

  -- A loop that appends to `out` the elements that pass the test.
  abbrev pub keep : (A → Bool) → List A → List A
  keep p [] = []
  keep p (x ∷ xs) = let rest = keep p xs in if p x then x ∷ rest else rest

  abbrev pub All {κ} : (A → Type κ) → List A → Type κ
  All P [] = Unit
  All P (x ∷ xs) = P x × All P xs

  pub length-take : (n : ℕ) (xs : List A) → n ≤ length xs → length (take n xs) ≡ n
  length-take zero xs h = refl
  length-take (suc n) [] h = absurd (omega arith)
  length-take (suc n) (x ∷ xs) h = omega (arith, length-take n xs (omega arith))

  pub length-replicate : (n : ℕ) (a : A) → length (replicate n a) ≡ n
  length-replicate zero a = refl
  length-replicate (suc n) a = omega (arith, length-replicate n a)

  pub get_or-take : (n i : ℕ) (xs : List A) (d : A) → i < n → get_or (take n xs) i d ≡ get_or xs i d
  get_or-take zero i xs d h = absurd (omega arith)
  get_or-take (suc n) i [] d h = refl
  get_or-take (suc n) zero (x ∷ xs) d h = refl
  get_or-take (suc n) (suc i) (x ∷ xs) d h = get_or-take n i xs d (omega arith)

  -- Padding by the default value shows nowhere.
  pub get_or-pad :
      (xs : List A) (n i : ℕ) (d : A) → get_or (xs ++ replicate n d) i d ≡ get_or xs i d
  get_or-pad [] zero i d = refl
  get_or-pad [] (suc n) zero d = refl
  get_or-pad [] (suc n) (suc i) d = get_or-pad [] n i d
  get_or-pad (x ∷ xs) n zero d = refl
  get_or-pad (x ∷ xs) n (suc i) d = get_or-pad xs n i d

  pub length-append : (xs ys : List A) → length (xs ++ ys) ≡ length xs + length ys
  length-append [] ys = omega arith
  length-append (x ∷ xs) ys = omega (arith, length-append xs ys)

  pub keep-append : (p : A → Bool) (xs ys : List A) → keep p (xs ++ ys) ≡ keep p xs ++ keep p ys
  keep-append p [] ys = refl
  keep-append p (x ∷ xs) ys = ground (arith, keep-append p xs ys)

  pub length-keep : (p : A → Bool) (xs : List A) → length (keep p xs) ≤ length xs
  length-keep p [] = omega arith
  length-keep p (x ∷ xs) = ground (arith, length-keep p xs)

  pub All-keep_self : (p : A → Bool) (xs : List A) → All (λ x. p x ≡ true) (keep p xs)
  All-keep_self p [] = tt
  All-keep_self p (x ∷ xs) = ground (arith, All-keep_self p xs)

  pub keep-All : (p : A → Bool) (xs : List A) → All (λ x. p x ≡ true) xs → keep p xs ≡ xs
  keep-All p [] h = refl
  keep-All p (x ∷ xs) h = ground (arith, keep-All p xs h.1)

  pub length-keep_mono :
      (p q : A → Bool)
      → ((x : A) → p x ≡ true → q x ≡ true)
      → (xs : List A) → length (keep p xs) ≤ length (keep q xs)
  length-keep_mono p q h [] = omega arith
  length-keep_mono p q h (x ∷ xs) = ground (arith, h x, length-keep_mono p q h xs)

  pub keep_others : (p : A → Bool) (xs : List A) → keep p xs ≡ [] → keep (λ x. not (p x)) xs ≡ xs
  keep_others p [] h = refl
  keep_others p (x ∷ xs) h = ground (arith, keep_others p xs)

  pub List-cases : (xs : List A) → (xs ≡ []) ⊎ ((x : A) × (ys : List A) × (xs ≡ x ∷ ys))
  List-cases [] = inl refl
  List-cases (x ∷ xs) = inr (x, xs, refl)

  -- A test that is implied by a later one leaves the later one's result alone.
  pub keep-keep :
      (p q : A → Bool)
      → ((x : A) → q x ≡ true → p x ≡ true)
      → (xs : List A) → keep q (keep p xs) ≡ keep q xs
  keep-keep p q h [] = refl
  keep-keep p q h (x ∷ xs) = ground (arith, h x, keep-keep p q h xs)

  pub All-append {κ} : (P : A → Type κ) (xs ys : List A) → All P xs → All P ys → All P (xs ++ ys)
  All-append P [] ys h k = k
  All-append P (x ∷ xs) ys h k = (h.0, All-append P xs ys h.1 k)

  pub All-keep {κ} : (P : A → Type κ) (p : A → Bool) (xs : List A) → All P xs → All P (keep p xs)
  All-keep P p [] h = h
  All-keep P p (x ∷ xs) h = ground (arith, All-keep P p xs h.1)

module _ {ℓ} {A : Type ℓ} ⦃e : Comparable A⦄ where
  abbrev pub contains : A → List A → Bool
  contains a [] = false
  contains a (x ∷ xs) = x == a || contains a xs

  abbrev pub Distinct : List A → Type 0
  Distinct [] = Unit
  Distinct (x ∷ xs) = (contains x xs ≡ false) × Distinct xs

  -- The loop that cuts the first equal element out and breaks.
  abbrev pub remove_first : A → List A → List A
  remove_first a [] = []
  remove_first a (x ∷ xs) = let rest = remove_first a xs in if x == a then xs else x ∷ rest

  pub contains-append :
      (a : A) (xs ys : List A) → contains a (xs ++ ys) ≡ (contains a xs || contains a ys)
  contains-append a [] ys = refl
  contains-append a (x ∷ xs) ys = ground (arith, contains-append a xs ys)

  pub Distinct-snoc :
      (xs : List A) (a : A) → Distinct xs → contains a xs ≡ false → Distinct (xs ++ a ∷ [])
  Distinct-snoc [] a d h = (refl, tt)
  Distinct-snoc (x ∷ xs) a d h = (
    ground (arith, contains-append x xs (a ∷ []), e.equal_iff x a, e.equal_iff a x),
    Distinct-snoc xs a d.1 (ground arith),
  )

  pub contains-remove_first :
      (a b : A) (xs : List A)
      → Distinct xs
      → contains b (remove_first a xs) ≡ (if a == b then false else contains b xs)
  contains-remove_first a b [] d = ground arith
  contains-remove_first a b (x ∷ xs) d = ground (
    arith,
    e.equal_iff a b,
    e.equal_iff x a,
    e.equal_iff x b,
    contains-remove_first a b xs d.1,
    d.0,
  )

  pub Distinct-remove_first : (a : A) (xs : List A) → Distinct xs → Distinct (remove_first a xs)
  Distinct-remove_first a [] d = tt
  Distinct-remove_first a (x ∷ xs) d =
      ground
        (arith, contains-remove_first a x xs d.1, Distinct-remove_first a xs d.1, e.equal_iff a x)

  pub length-remove_first :
      (a : A) (xs : List A) → contains a xs ≡ true → suc (length (remove_first a xs)) ≡ length xs
  length-remove_first a [] h = ground arith
  length-remove_first a (x ∷ xs) h = ground (arith, length-remove_first a xs)

  pub remove_first-absent : (a : A) (xs : List A) → contains a xs ≡ false → remove_first a xs ≡ xs
  remove_first-absent a [] h = refl
  remove_first-absent a (x ∷ xs) h = ground (arith, remove_first-absent a xs)

  pub remove_first-snoc :
      (a : A) (xs : List A) → contains a xs ≡ false → remove_first a (xs ++ a ∷ []) ≡ xs
  remove_first-snoc a [] h = ground (arith, e.equal_iff a a)
  remove_first-snoc a (x ∷ xs) h = ground (arith, remove_first-snoc a xs)
