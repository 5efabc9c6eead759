-- ===== src/Gumball/Shuffle.antt =====
-- The indices of a machine stay a permutation of the items.
use candyland.Prelude.{
  ℕ, zero, suc, ◌<◌, ◌≡◌, ◌≢◌, inl, inr, sym, ap, subst, ◌∙◌, arith, Bool, Option, none, some, List,
  [], ◌∷◌, length, get_elem?, set, ◌==◌, if◌then◌else◌, done, in_range, done-injective, >>=-eq-done,
  eq_or_ne, test_of_eq, test_of_ne, length-set, get_elem?-set_self, get_elem?-set_ne,
}
use candyland.Gumball.State.{Checked}
use candyland.Gumball.Dispense.{swap}

-- Every item below `n` stands once among the first `n` places.
pub record IsShuffle (n : ℕ) (xs : List ℕ) : Type 0 where
  pub size : length xs ≡ n
  pub item : (i : ℕ) → i < n → (v : ℕ) × (get_elem? xs i ≡ some v) × (v < n)
  pub distinct : (i j v : ℕ) → get_elem? xs i ≡ some v → get_elem? xs j ≡ some v → i ≡ j

-- Where the element of a place comes from.
abbrev pub transposed : ℕ → ℕ → ℕ → ℕ
transposed i j k = if k == j then i else if k == i then j else k

pub in_range-eq-done :
    {A : Type 0} (o : Option A) {a : A} → ◌≡◌ {A = Checked A} (in_range o) (done a) → o ≡ some a
in_range-eq-done none e = cc
in_range-eq-done (some x) e = ap some (done-injective e)

pub get_elem?-lt :
    {A : Type 0} (xs : List A) (i : ℕ) {v : A} → get_elem? xs i ≡ some v → i < length xs
get_elem?-lt [] i e = cc
get_elem?-lt (x ∷ xs) zero e = omega arith
get_elem?-lt (x ∷ xs) (suc i) e = omega (arith, get_elem?-lt xs i e)

-- A swap takes each element from the transposed place.
pub swap_lem :
    (xs : List ℕ) (i j : ℕ) {ys : List ℕ}
    → swap xs i j ≡ done ys
    → (length ys ≡ length xs) × ((k : ℕ) → get_elem? ys k ≡ get_elem? xs (transposed i j k))
unfolding swap
swap_lem xs i j {ys} e =
    let (a, first, e1) = >>=-eq-done (in_range (get_elem? xs i)) _ e in
    let (b, second, e2) = >>=-eq-done (in_range (get_elem? xs j)) _ e1 in
    let at_i = in_range-eq-done (get_elem? xs i) first in
    let at_j = in_range-eq-done (get_elem? xs j) second in
    let in_i = get_elem?-lt xs i at_i in
    let in_j = get_elem?-lt xs j at_j in
    let moved : (k : ℕ) → get_elem? (set (set xs i b) j a) k ≡ get_elem? xs (transposed i j k) =
      λ k. elim (eq_or_ne k j) [
        | inl e ↦
            ap (get_elem? (set (set xs i b) j a)) e
            ∙ get_elem?-set_self (set xs i b) j a (omega (arith, length-set xs i b))
            ∙ sym at_i
            ∙ ap (λ (t : Bool). get_elem? xs (if t then i else if k == i then j else k))
                (sym (test_of_eq k j e))
        | inr n ↦
            get_elem?-set_ne (set xs i b) j k a (λ e. n (sym e))
            ∙ elim (eq_or_ne k i) [
              | inl e ↦
                  ap (get_elem? (set xs i b)) e
                  ∙ get_elem?-set_self xs i b in_i
                  ∙ sym at_j
                  ∙ ap (λ (t : Bool). get_elem? xs (if t then j else k)) (sym (test_of_eq k i e))
              | inr m ↦
                  get_elem?-set_ne xs i k b (λ e. m (sym e))
                  ∙ ap (λ (t : Bool). get_elem? xs (if t then j else k)) (sym (test_of_ne k i m))
            ]
            ∙ ap (λ (t : Bool). get_elem? xs (if t then i else if k == i then j else k))
                (sym (test_of_ne k j n))
      ] in
    subst
      (λ (zs : List ℕ).
        (length zs ≡ length xs) × ((k : ℕ) → get_elem? zs k ≡ get_elem? xs (transposed i j k)))
      (done-injective e2) (length-set (set xs i b) j a ∙ length-set xs i b, moved)

transposed-lt : (i j k n : ℕ) → i < n → j < n → k < n → transposed i j k < n
transposed-lt i j k n p q r = ground arith

transposed-injective : (i j k l : ℕ) → transposed i j k ≡ transposed i j l → k ≡ l
transposed-injective i j k l e = ground arith

pub transposed-other : (i j k : ℕ) → k ≢ i → k ≢ j → transposed i j k ≡ k
transposed-other i j k p q = ground arith

-- A swap inside a permutation gives a permutation.
pub swap-IsShuffle :
    (n : ℕ) (xs : List ℕ) (i j : ℕ) {ys : List ℕ}
    → IsShuffle n xs
    → i < n
    → j < n
    → swap xs i j ≡ done ys
    → IsShuffle n ys
swap-IsShuffle n xs i j ok p q e =
    let (same, moved) = swap_lem xs i j e in
    record {
      size = same ∙ ok.size;
      item = λ k r.
          let (v, at, low) = ok.item (transposed i j k) (transposed-lt i j k n p q r) in
          (v, moved k ∙ at, low);
      distinct = λ k l v at_k at_l. transposed-injective i j k l (
          ok.distinct (transposed i j k) (transposed i j l) v (sym (moved k) ∙ at_k)
            (sym (moved l) ∙ at_l));
    }
