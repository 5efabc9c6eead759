-- ===== src/Prelude/Lists.antt =====
-- Lists with native lengths and indices, and lists made by a function of the index.
use Prim.Native.Nat.{ℕ, zero, suc, ◌+◌, ◌≤◌, ◌<◌}
use mathlib.Core.Path.{◌≡◌, refl, ap, ap₂, ◌∙◌}
use mathlib.Core.Logic.{◌≢◌}
use mathlib.Core.List.{List, [], ◌∷◌, ◌++◌}
use mathlib.Core.Option.{Option, none, some}
use native.Mathlib.Omega.{arith}
use candyland.Prelude.Tests.{if◌then◌else◌, ◌==◌}

module _ {ℓ} {A : Type ℓ} where
  abbrev pub length : List A → ℕ
  length [] = 0
  length (x ∷ xs) = suc (length xs)

  abbrev pub get_elem? : List A → ℕ → Option A
  get_elem? [] i = none
  get_elem? (x ∷ xs) zero = some x
  get_elem? (x ∷ xs) (suc i) = get_elem? xs i

  abbrev pub get_or : List A → ℕ → A → A
  get_or [] i d = d
  get_or (x ∷ xs) zero d = x
  get_or (x ∷ xs) (suc i) d = get_or xs i d

  -- A write out of bounds changes nothing.
  abbrev pub set : List A → ℕ → A → List A
  set [] i v = []
  set (x ∷ xs) zero v = v ∷ xs
  set (x ∷ xs) (suc i) v = x ∷ set xs i v

  abbrev pub replicate : ℕ → A → List A
  replicate zero a = []
  replicate (suc n) a = a ∷ replicate n a

  -- `g k ∷ g (k + 1) ∷ …`, of length `m`.
  abbrev pub tabulate_from : ℕ → ℕ → (ℕ → A) → List A
  tabulate_from k zero g = []
  tabulate_from k (suc m) g = g k ∷ tabulate_from (suc k) m g

  abbrev pub tabulate : ℕ → (ℕ → A) → List A
  tabulate m g = tabulate_from 0 m g

module _ {ℓ} {A : Type ℓ} where
  pub length-append : (xs ys : List A) → length (xs ++ ys) ≡ length xs + length ys
  length-append [] ys = omega arith
  length-append (x ∷ xs) ys = omega (arith, length-append xs ys)

  pub length-set : (xs : List A) (i : ℕ) (v : A) → length (set xs i v) ≡ length xs
  length-set [] i v = refl
  length-set (x ∷ xs) zero v = refl
  length-set (x ∷ xs) (suc i) v = ap suc (length-set xs i v)

  pub length-replicate : (n : ℕ) (a : A) → length (replicate n a) ≡ n
  length-replicate zero a = refl
  length-replicate (suc n) a = ap suc (length-replicate n a)

  pub get_elem?-eq-get_or :
      (xs : List A) (i : ℕ) (d : A) → i < length xs → get_elem? xs i ≡ some (get_or xs i d)
  get_elem?-eq-get_or [] i d h = absurd (omega arith)
  get_elem?-eq-get_or (x ∷ xs) zero d h = refl
  get_elem?-eq-get_or (x ∷ xs) (suc i) d h = get_elem?-eq-get_or xs i d (omega arith)

  pub get_elem?-set_self :
      (xs : List A) (i : ℕ) (v : A) → i < length xs → get_elem? (set xs i v) i ≡ some v
  get_elem?-set_self [] i v h = absurd (omega arith)
  get_elem?-set_self (x ∷ xs) zero v h = refl
  get_elem?-set_self (x ∷ xs) (suc i) v h = get_elem?-set_self xs i v (omega arith)

  pub get_elem?-set_ne :
      (xs : List A) (i j : ℕ) (v : A) → i ≢ j → get_elem? (set xs i v) j ≡ get_elem? xs j
  get_elem?-set_ne [] i j v ne = refl
  get_elem?-set_ne (x ∷ xs) zero zero v ne = absurd (ne refl)
  get_elem?-set_ne (x ∷ xs) zero (suc j) v ne = refl
  get_elem?-set_ne (x ∷ xs) (suc i) zero v ne = refl
  get_elem?-set_ne (x ∷ xs) (suc i) (suc j) v ne = get_elem?-set_ne xs i j v (λ e. ne (ap suc e))

module _ {ℓ} {A : Type ℓ} where
  pub length-tabulate_from : (k m : ℕ) (g : ℕ → A) → length (tabulate_from k m g) ≡ m
  length-tabulate_from k zero g = refl
  length-tabulate_from k (suc m) g = ap suc (length-tabulate_from (suc k) m g)

  -- Lists made by functions that agree in range are equal.
  pub tabulate_from_ext :
      (k m : ℕ) (g h : ℕ → A)
      → ((x : ℕ) → k ≤ x → x < k + m → g x ≡ h x)
      → tabulate_from k m g ≡ tabulate_from k m h
  tabulate_from_ext k zero g h e = refl
  tabulate_from_ext k (suc m) g h e =
      ap₂ ◌∷◌ (e k (omega arith) (omega arith))
        (tabulate_from_ext (suc k) m g h (λ x p q. e x (omega arith) (omega arith)))

  pub get_elem?-tabulate_from :
      (k m i : ℕ) (g : ℕ → A) → i < m → get_elem? (tabulate_from k m g) i ≡ some (g (k + i))
  get_elem?-tabulate_from k zero i g h = absurd (omega arith)
  get_elem?-tabulate_from k (suc m) zero g h = ap (λ (x : ℕ). some (g x)) (omega arith)
  get_elem?-tabulate_from k (suc m) (suc i) g h =
      get_elem?-tabulate_from (suc k) m i g (omega arith) ∙ ap (λ (x : ℕ). some (g x)) (omega arith)

  pub get_or-tabulate_from :
      (k m i : ℕ) (g : ℕ → A) (d : A) → i < m → get_or (tabulate_from k m g) i d ≡ g (k + i)
  get_or-tabulate_from k zero i g d h = absurd (omega arith)
  get_or-tabulate_from k (suc m) zero g d h = ap (λ (x : ℕ). g x) (omega arith)
  get_or-tabulate_from k (suc m) (suc i) g d h =
      get_or-tabulate_from (suc k) m i g d (omega arith) ∙ ap (λ (x : ℕ). g x) (omega arith)

  abbrev pub put_at : ℕ → A → (ℕ → A) → ℕ → A
  put_at c v g x = if x == c then v else g x

  pub set-tabulate_from :
      (k m c : ℕ) (v : A) (g : ℕ → A)
      → set (tabulate_from k m g) c v ≡ tabulate_from k m (put_at (k + c) v g)
  set-tabulate_from k zero c v g = refl
  set-tabulate_from k (suc m) zero v g =
      ap₂ ◌∷◌ (ground arith)
        (tabulate_from_ext (suc k) m g (put_at (k + zero) v g) (λ x p q. ground arith))
  set-tabulate_from k (suc m) (suc c) v g = ap₂ ◌∷◌ (ground arith) (
      set-tabulate_from (suc k) m c v g
      ∙ tabulate_from_ext (suc k) m (put_at (suc k + c) v g) (put_at (k + suc c) v g)
          (λ x p q. ground arith))

module _ {ℓ} {A : Type ℓ} where
  abbrev pub reverse : List A → List A
  reverse [] = []
  reverse (x ∷ xs) = reverse xs ++ (x ∷ [])

  abbrev pub take : ℕ → List A → List A
  take zero xs = []
  take (suc n) [] = []
  take (suc n) (x ∷ xs) = x ∷ take n xs

  abbrev pub drop : ℕ → List A → List A
  drop zero xs = xs
  drop (suc n) [] = []
  drop (suc n) (x ∷ xs) = drop n xs

  pub reverse-snoc : (xs : List A) (x : A) → reverse (xs ++ (x ∷ [])) ≡ x ∷ reverse xs
  reverse-snoc [] x = refl
  reverse-snoc (y ∷ xs) x = ap (λ (ys : List A). ys ++ (y ∷ [])) (reverse-snoc xs x)

  pub tabulate_from_snoc :
      (k m : ℕ) (g : ℕ → A) → tabulate_from k (suc m) g ≡ tabulate_from k m g ++ (g (k + m) ∷ [])
  tabulate_from_snoc k zero g = ap (λ (x : ℕ). g x ∷ []) (omega arith)
  tabulate_from_snoc k (suc m) g =
      ap (λ (ys : List A). g k ∷ ys) (tabulate_from_snoc (suc k) m g)
      ∙ ap (λ (x : ℕ). g k ∷ (tabulate_from (suc k) m g ++ (g x ∷ []))) {x = suc k + m}
          (omega arith)

  -- The last element comes first.
  pub reverse-tabulate :
      (m : ℕ) (g : ℕ → A) → reverse (tabulate (suc m) g) ≡ g m ∷ reverse (tabulate m g)
  reverse-tabulate m g =
      ap reverse (tabulate_from_snoc 0 m g)
      ∙ reverse-snoc (tabulate m g) (g (0 + m))
      ∙ ap (λ (x : ℕ). g x ∷ reverse (tabulate m g)) {x = 0 + m} (omega arith)

  pub tabulate_from-append :
      (k m n : ℕ) (g : ℕ → A)
      → tabulate_from k m g ++ tabulate_from (k + m) n g ≡ tabulate_from k (m + n) g
  tabulate_from-append k zero n g = (λ i. tabulate_from (lhs i) (rhs i) g)
    where
      lhs : k + 0 ≡ k
      lhs = omega arith

      rhs : n ≡ 0 + n
      rhs = omega arith
  tabulate_from-append k (suc m) n g =
      ap (λ (a : ℕ). g k ∷ (tabulate_from (suc k) m g ++ tabulate_from a n g)) {y = suc k + m}
        (omega arith)
      ∙ ap (λ (xs : List A). g k ∷ xs) (tabulate_from-append (suc k) m n g)
      ∙ ap (λ (c : ℕ). tabulate_from k c g) {x = suc (m + n)} (omega arith)

pub length-take : {A : Type 0} (n : ℕ) (xs : List A) → n ≤ length xs → length (take n xs) ≡ n
length-take zero xs h = refl
length-take (suc n) [] h = absurd (omega arith)
length-take (suc n) (x ∷ xs) h = ap suc (length-take n xs (omega arith))
