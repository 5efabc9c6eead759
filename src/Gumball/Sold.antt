-- ===== src/Gumball/Sold.antt =====
-- The items that a machine has dispensed stand behind its remaining ones.
use candyland.Prelude.{
  ℕ, zero, suc, ◌+◌, ◌-◌, ◌%◌, ◌≤◌, ◌<◌, ◌≡◌, ◌≢◌, inl, inr, refl, sym, ap, subst, ◌∙◌, arith, Bool,
  true, some, false, List, [], ◌∷◌, ◌++◌, length, get_elem?, ltb, done, in_range, done-injective,
  >>=-eq-done, assert, lt_or_ge, lt_of_test, length-append,
}
use native.Mathlib.Nat.{mod-lt}
use candyland.Bubblegum.Metadata.{MetadataArgs}
use candyland.Bubblegum.Schema.{Hashes}
use candyland.Bubblegum.Program.{Slab, Emitted, AccountInfo, mint_v1}
use candyland.Gumball.State.{Checked, GumballMachineHeader, Machine, from_u8, call}
use candyland.Gumball.Metadata.{get_metadata_args}
use candyland.Gumball.Dispense.{
  Env, swap, config_line_of, fisher_yates_shuffle_and_fetch_nft_metadata, mint_items,
}
use candyland.Gumball.Shuffle.{
  IsShuffle, swap_lem, swap-IsShuffle, transposed-other, in_range-eq-done,
}

-- `numbers` were dispensed, in this order, since the machine was `start`.
pub record IsSoldFrom (start m : Machine) (numbers : List ℕ) : Type 0 where
  pub header : m.header ≡ record start.header { remaining = m.header.remaining }
  pub shuffle : IsShuffle start.header.max_items m.indices
  pub room : start.header.remaining ≤ start.header.max_items
  pub count : length numbers + m.header.remaining ≡ start.header.remaining
  pub places :
      (k : ℕ)
      → k < length numbers
      → (v : ℕ) × (get_elem? numbers k ≡ some (v + 1))
        × (get_elem? m.indices (start.header.remaining - 1 - k) ≡ some v)

pub assert-eq-done :
    (t : Bool) {u : Unit {0}} → ◌≡◌ {A = Checked (Unit {0})} (assert t) (done u) → t ≡ true
assert-eq-done true e = refl
assert-eq-done false e = cc

pub get_elem?-append :
    (xs ys : List ℕ) (k : ℕ) → k < length xs → get_elem? (xs ++ ys) k ≡ get_elem? xs k
get_elem?-append [] ys k h = absurd (omega arith)
get_elem?-append (x ∷ xs) ys zero h = refl
get_elem?-append (x ∷ xs) ys (suc k) h = get_elem?-append xs ys k (omega arith)

get_elem?-snoc : (xs : List ℕ) (v : ℕ) → get_elem? (xs ++ (v ∷ [])) (length xs) ≡ some v
get_elem?-snoc [] v = refl
get_elem?-snoc (x ∷ xs) v = get_elem?-snoc xs v

append-cons : (xs : List ℕ) (y : ℕ) (ys : List ℕ) → (xs ++ (y ∷ [])) ++ ys ≡ xs ++ (y ∷ ys)
append-cons [] y ys = refl
append-cons (x ∷ xs) y ys = ap (λ (zs : List ℕ). x ∷ zs) (append-cons xs y ys)

module _ (env : Env) where
  -- One more item is dispensed.
  pub fisher_yates-IsSoldFrom :
      (start m : Machine) (numbers : List ℕ) (line_size : ℕ) {out : Machine × ℕ × MetadataArgs}
      → IsSoldFrom start m numbers
      → fisher_yates_shuffle_and_fetch_nft_metadata env m line_size ≡ done out
      → IsSoldFrom start out.0 (numbers ++ (out.1 ∷ []))
  unfolding fisher_yates_shuffle_and_fetch_nft_metadata
  fisher_yates-IsSoldFrom start m numbers line_size {out} ok e =
      let (_, left, e1) = >>=-eq-done (assert (ltb 0 m.header.remaining)) _ e in
      let some_left = lt_of_test 0 m.header.remaining (assert-eq-done _ left) in
      let selected = env.entropy m.header.remaining % m.header.remaining in
      let last = m.header.remaining - 1 in
      let (indices, swapped, e2) = >>=-eq-done (swap m.indices selected last) _ e1 in
      let (v, at, e3) = >>=-eq-done (in_range (get_elem? indices last)) _ e2 in
      let (line, _, e4) = >>=-eq-done (config_line_of env m.config_lines line_size v) _ e3 in
      let (method, _, e5) = >>=-eq-done (from_u8 m.header.config_line_encode_method) _ e4 in
      let (message, _, e6) =
        >>=-eq-done (get_metadata_args env.base58 m.header (v + 1) line method) _ e5 in
      let low : selected < m.header.remaining = mod-lt (env.entropy m.header.remaining) some_left in
      let total : m.header.remaining ≤ start.header.max_items = omega (arith, ok.count, ok.room) in
      let (_, moved) = swap_lem m.indices selected last swapped in
      let size = length-append numbers ((v + 1) ∷ []) in
      subst (λ (o : Machine × ℕ × MetadataArgs). IsSoldFrom start o.0 (numbers ++ (o.1 ∷ [])))
        (done-injective e6)
        (record {
          header = ap (λ (h : GumballMachineHeader). record h { remaining = last }) ok.header;
          shuffle =
              swap-IsShuffle start.header.max_items m.indices selected last ok.shuffle (omega arith)
                (omega arith) swapped;
          room = ok.room;
          count = omega (arith, ok.count, size);
          places = λ k h. elim (lt_or_ge k (length numbers)) [
            | inl lt ↦
                let (u, number, place) = ok.places k lt in
                let behind : start.header.remaining - 1 - k ≢ last = omega (arith, ok.count) in
                let apart : start.header.remaining - 1 - k ≢ selected =
                  omega (arith, ok.count, low) in
                (
                  u,
                  get_elem?-append numbers ((v + 1) ∷ []) k lt ∙ number,
                  moved (start.header.remaining - 1 - k)
                      ∙ ap (get_elem? m.indices) (
                          transposed-other selected last (start.header.remaining - 1 - k) apart
                            behind)
                      ∙ place,
                )
            | inr ge ↦
                let is : k ≡ length numbers = omega (arith, size) in
                (
                  v,
                  ap (get_elem? (numbers ++ ((v + 1) ∷ []))) is ∙ get_elem?-snoc numbers (v + 1),
                  ap (get_elem? indices) {x = start.header.remaining - 1 - k} {y = last}
                        (omega (arith, ok.count))
                      ∙ in_range-eq-done (get_elem? indices last) at,
                )
          ];
        })

  -- The loop dispenses as many items as it has rounds.
  pub mint_items-IsSoldFrom :
      (hashes : Hashes) (payer : AccountInfo) (n line_size : ℕ) (start m : Machine)
      (numbers : List ℕ) (slab : Slab) {out : Machine × Slab × List Emitted × List ℕ}
      → IsSoldFrom start m numbers
      → mint_items env hashes payer n line_size m slab ≡ done out
      → IsSoldFrom start out.0 (numbers ++ out.3) × (length out.3 ≡ n)
  unfolding mint_items
  mint_items-IsSoldFrom hashes payer zero line_size start m numbers slab {out} ok e =
      subst
        (λ (o : Machine × Slab × List Emitted × List ℕ).
          IsSoldFrom start o.0 (numbers ++ o.3) × (length o.3 ≡ 0))
        (done-injective e)
        (subst (λ (xs : List ℕ). IsSoldFrom start m xs) (sym (append-nil numbers)) ok, refl)
    where
      append-nil : (xs : List ℕ) → xs ++ [] ≡ xs
      append-nil [] = refl
      append-nil (x ∷ xs) = ap (λ (ys : List ℕ). x ∷ ys) (append-nil xs)
  mint_items-IsSoldFrom hashes payer (suc n) line_size start m numbers slab {out} ok e =
      let willy_wonka : AccountInfo = record { key = env.willy_wonka m.id; is_signer = true } in
      let ((m', number, message), drawn, e1) =
        >>=-eq-done (fisher_yates_shuffle_and_fetch_nft_metadata env m line_size) _ e in
      let ((slab', emitted), _, e2) =
        >>=-eq-done (call (mint_v1 hashes slab willy_wonka payer.key payer.key message)) _ e1 in
      let ((m'', slab'', more, others), rest, e3) =
        >>=-eq-done (mint_items env hashes payer n line_size m' slab') _ e2 in
      let (sold, size) =
        mint_items-IsSoldFrom hashes payer n line_size start m' (numbers ++ (number ∷ [])) slab'
          (fisher_yates-IsSoldFrom start m numbers line_size ok drawn) rest in
      subst
        (λ (o : Machine × Slab × List Emitted × List ℕ).
          IsSoldFrom start o.0 (numbers ++ o.3) × (length o.3 ≡ suc n))
        (done-injective e3)
        (
          subst (λ (xs : List ℕ). IsSoldFrom start m'' xs) (append-cons numbers number others) sold,
          ap suc size,
        )
