-- ===== src/Gumball/Invariant.antt =====
-- What holds of a machine between its instructions, and the lists behind it.
use candyland.Prelude.{
  ℕ, zero, suc, ◌+◌, ◌-◌, ◌≤◌, ◌<◌, ◌≡◌, ◌⊎◌, inl, inr, refl, sym, ap, ◌∙◌, arith, some,
  some-injective, List, [], ◌∷◌, ◌++◌, length, get_elem?, take, drop, tabulate_from, length-append,
  length-take, length-tabulate_from, get_elem?-tabulate_from, lt_or_ge,
}
use candyland.Gumball.State.{Machine}
use candyland.Gumball.Manage.{write_indices}
use candyland.Gumball.Shuffle.{IsShuffle, get_elem?-lt}
use candyland.Gumball.Sold.{get_elem?-append}

-- The counts are in bounds, and either every item is in the indices once, or the first of them are
-- written by their own numbers.
pub record IsMachine (m : Machine) : Type 0 where
  pub places : length m.indices ≡ m.header.max_items
  pub started : m.header.smallest_uninitialized_index ≤ m.header.max_items
  pub added : m.header.total_items_added ≤ m.header.max_items
  pub left : m.header.remaining ≤ m.header.max_items
  pub lines : (m.header.extension_len ≡ 0) ⊎ (m.header.remaining ≤ m.header.total_items_added)
  pub batch : m.header.max_mint_size ≤ m.header.max_items
  pub filled :
      ((m.header.max_items ≡ m.header.smallest_uninitialized_index)
        × IsShuffle m.header.max_items m.indices)
      ⊎ ((i : ℕ) → i < m.header.smallest_uninitialized_index → get_elem? m.indices i ≡ some i)

length-drop : (n : ℕ) (xs : List ℕ) → n ≤ length xs → n + length (drop n xs) ≡ length xs
length-drop zero xs h = omega arith
length-drop (suc n) [] h = absurd (omega arith)
length-drop (suc n) (x ∷ xs) h = omega (arith, length-drop n xs (omega arith))

get_elem?-take : (n : ℕ) (xs : List ℕ) (k : ℕ) → k < n → get_elem? (take n xs) k ≡ get_elem? xs k
get_elem?-take zero xs k h = absurd (omega arith)
get_elem?-take (suc n) [] k h = refl
get_elem?-take (suc n) (x ∷ xs) zero h = refl
get_elem?-take (suc n) (x ∷ xs) (suc k) h = get_elem?-take n xs k (omega arith)

get_elem?-drop : (n : ℕ) (xs : List ℕ) (k : ℕ) → get_elem? (drop n xs) k ≡ get_elem? xs (n + k)
get_elem?-drop zero xs k = ap (get_elem? xs) {x = k} (omega arith)
get_elem?-drop (suc n) [] k = refl
get_elem?-drop (suc n) (x ∷ xs) k =
    get_elem?-drop n xs k ∙ ap (get_elem? (x ∷ xs)) {x = suc (n + k)} (omega arith)

get_elem?-append_right :
    (xs ys : List ℕ) (k : ℕ) → get_elem? (xs ++ ys) (length xs + k) ≡ get_elem? ys k
get_elem?-append_right [] ys k = ap (get_elem? ys) {x = 0 + k} (omega arith)
get_elem?-append_right (x ∷ xs) ys k =
    ap (get_elem? (x ∷ (xs ++ ys))) {x = suc (length xs) + k} {y = suc (length xs + k)}
      (omega arith)
    ∙ get_elem?-append_right xs ys k

-- The places from `from` up to `to` hold their numbers, and the others what they held.
pub write_indices_lem :
    (xs : List ℕ) (from to : ℕ)
    → from ≤ to
    → to ≤ length xs
    → (length (write_indices xs from to) ≡ length xs)
      × ((k : ℕ)
          → ((from ≤ k) × (k < to) × (get_elem? (write_indices xs from to) k ≡ some k))
            ⊎ (((k < from) ⊎ (to ≤ k)) × (get_elem? (write_indices xs from to) k ≡ get_elem? xs k)))
unfolding write_indices
write_indices_lem xs from to p q =
    (omega (arith, size_rest, length-append front (middle ++ back), size_front, size_back), at)
  where
    front : List ℕ
    front = take from xs

    middle : List ℕ
    middle = tabulate_from from (to - from) (λ i. i)

    back : List ℕ
    back = drop to xs

    size_front : length front ≡ from
    size_front = length-take from xs (omega arith)

    size_middle : length middle ≡ to - from
    size_middle = length-tabulate_from from (to - from) (λ i. i)

    size_back : to + length back ≡ length xs
    size_back = length-drop to xs q

    size_rest : length (middle ++ back) ≡ (to - from) + length back
    size_rest = omega (arith, length-append middle back, size_middle)

    at :
        (k : ℕ)
        → ((from ≤ k) × (k < to) × (get_elem? (front ++ (middle ++ back)) k ≡ some k))
          ⊎ (((k < from) ⊎ (to ≤ k)) × (get_elem? (front ++ (middle ++ back)) k ≡ get_elem? xs k))
    at k = elim (lt_or_ge k from) [
      | inl low ↦ inr (
        inl low,
        get_elem?-append front (middle ++ back) k (omega (arith, size_front))
            ∙ get_elem?-take from xs k low,
      )
      | inr ge ↦
          let shift : get_elem? (front ++ (middle ++ back)) k
              ≡ get_elem? (middle ++ back) (k - from) =
            ap (get_elem? (front ++ (middle ++ back))) {x = k} {y = length front + (k - from)}
              (omega (arith, size_front))
            ∙ get_elem?-append_right front (middle ++ back) (k - from) in
          elim (lt_or_ge k to) [
            | inl lt ↦ inl (
              ge,
              lt,
              shift
                  ∙ get_elem?-append middle back (k - from) (omega (arith, size_middle))
                  ∙ get_elem?-tabulate_from from (to - from) (k - from) (λ i. i) (omega arith)
                  ∙ ap some {x = from + (k - from)} (omega arith),
            )
            | inr past ↦ inr (
              inr past,
              shift
                  ∙ ap (get_elem? (middle ++ back)) {x = k - from} {y = length middle + (k - to)}
                      (omega (arith, size_middle))
                  ∙ get_elem?-append_right middle back (k - to)
                  ∙ get_elem?-drop to xs (k - to)
                  ∙ ap (get_elem? xs) {x = to + (k - to)} (omega arith),
            )
          ]
    ]

-- Places that hold their own numbers are a permutation, and so is a list with the same places.
pub numbered-IsShuffle :
    (n : ℕ) (xs : List ℕ)
    → length xs ≡ n
    → ((i : ℕ) → i < n → get_elem? xs i ≡ some i)
    → IsShuffle n xs
numbered-IsShuffle n xs size at = record {
  size = size;
  item = λ i h. (i, at i h, h);
  distinct = λ i j v at_i at_j. is i v at_i ∙ sym (is j v at_j);
}
  where
    is : (i v : ℕ) → get_elem? xs i ≡ some v → i ≡ v
    is i v e =
        let inside = get_elem?-lt xs i e in some-injective (sym (at i (omega (arith, size))) ∙ e)

pub same-IsShuffle :
    (n : ℕ) (xs ys : List ℕ)
    → length ys ≡ length xs
    → ((i : ℕ) → get_elem? ys i ≡ get_elem? xs i)
    → IsShuffle n xs
    → IsShuffle n ys
same-IsShuffle n xs ys size at ok = record {
  size = size ∙ ok.size;
  item = λ i h. let (v, is, low) = ok.item i h in (v, at i ∙ is, low);
  distinct = λ i j v e f. ok.distinct i j v (sym (at i) ∙ e) (sym (at j) ∙ f);
}
