-- ===== src/Gummyroll/Program/Initialized.antt =====
-- The instruction that creates a tree.
use candyland.Prelude.{
  ℕ, ◌+◌, ◌^◌, ◌<◌, ◌≤◌, ◌≡◌, ◌≢◌, inl, inr, refl, sym, ap, subst, ◌∙◌, arith, Bool, true, false,
  ◌&&◌, ◌||◌, List, [], ◌∷◌, replicate, none, done, err, done-injective, >>=-eq-done, assert, ◌==◌,
  eq_of_test, Bool-cases, if◌then◌else◌,
}
use candyland.Cmt.Node.{Node, empty}
use candyland.Cmt.Roll
use candyland.Cmt.Roll.{MerkleRoll}
use candyland.Cmt.Api
use candyland.Cmt.History.{IsRollOf}
use candyland.Cmt.History.Initialized.{beginning, initialized, initialize_lem}
use candyland.Gummyroll.Event.{ChangeLogEvent}
use candyland.Gummyroll.Canopy.{
  merkle_roll_constants_error, CanopyBytes, Checked, check_canopy_bytes, get_cached_path_length,
  update_canopy,
}
use candyland.Gummyroll.Canopy.Rows.{IsCanopy, unset-IsCanopy}
use candyland.Gummyroll.Program.{
  Account, MerkleRollHeader, sizes, known, initialize_header, check_size, apply_fn,
  init_empty_gummyroll,
}
use candyland.Gummyroll.Program.Store.{IsAccountOf, apply_fn-eq-done}

-- A depth and a buffer that a roll can have.
abbrev Fits : ℕ → ℕ → Type 0
Fits d s = (b : ℕ) × (s ≡ 2 ^ b) × (b ≤ 32) × (1 ≤ d) × (d < 31)

abbrev AllFit : List (ℕ × ℕ) → Type 0
AllFit [] = Unit {0}
AllFit ((d, s) ∷ rest) = Fits d s × AllFit rest

eq_of_and : (a b : Bool) → (a && b) ≡ true → (a ≡ true) × (b ≡ true)
eq_of_and true b e = (refl, e)
eq_of_and false b e = cc

known-Fits : (list : List (ℕ × ℕ)) (d s : ℕ) → AllFit list → known list d s ≡ true → Fits d s
known-Fits [] d s fits e = cc
known-Fits ((d', s') ∷ rest) d s (fit, fits) e = elim (Bool-cases ((d' == d) && (s' == s))) [
  | inl t ↦
      let (same_d, same_s) = eq_of_and _ _ t in
      subst (λ (x : ℕ). Fits x s) (eq_of_test d' d same_d)
        (subst (λ (x : ℕ). Fits d' x) (eq_of_test s' s same_s) fit)
  | inr f ↦ known-Fits rest d s fits (sym (ap (λ (t : Bool). t || known rest d s) f) ∙ e)
]

-- Every size of the table is a power of two, and every depth is from 1 to 30.
sizes-AllFit : AllFit sizes
sizes-AllFit =
    let fit : (b : ℕ) (d : ℕ) → b ≤ 32 → 1 ≤ d → d < 31 → Fits d (2 ^ b) =
      λ b d w pos low. (b, refl, w, pos, low) in
    (
      fit 3 3 (omega arith) (omega arith) (omega arith),
      (
        fit 3 5 (omega arith) (omega arith) (omega arith),
        (
          fit 6 14 (omega arith) (omega arith) (omega arith),
          (
            fit 8 14 (omega arith) (omega arith) (omega arith),
            (
              fit 10 14 (omega arith) (omega arith) (omega arith),
              (
                fit 11 14 (omega arith) (omega arith) (omega arith),
                (
                  fit 6 20 (omega arith) (omega arith) (omega arith),
                  (
                    fit 8 20 (omega arith) (omega arith) (omega arith),
                    (
                      fit 10 20 (omega arith) (omega arith) (omega arith),
                      (
                        fit 11 20 (omega arith) (omega arith) (omega arith),
                        (
                          fit 6 24 (omega arith) (omega arith) (omega arith),
                          (
                            fit 8 24 (omega arith) (omega arith) (omega arith),
                            (
                              fit 9 24 (omega arith) (omega arith) (omega arith),
                              (
                                fit 10 24 (omega arith) (omega arith) (omega arith),
                                (
                                  fit 11 24 (omega arith) (omega arith) (omega arith),
                                  (
                                    fit 9 26 (omega arith) (omega arith) (omega arith),
                                    (
                                      fit 10 26 (omega arith) (omega arith) (omega arith),
                                      (
                                        fit 11 26 (omega arith) (omega arith) (omega arith),
                                        (
                                          fit 9 30 (omega arith) (omega arith) (omega arith),
                                          (
                                            fit 10 30 (omega arith) (omega arith) (omega arith),
                                            (
                                              fit 11 30 (omega arith) (omega arith) (omega arith),
                                              tt,
                                            ),
                                          ),
                                        ),
                                      ),
                                    ),
                                  ),
                                ),
                              ),
                            ),
                          ),
                        ),
                      ),
                    ),
                  ),
                ),
              ),
            ),
          ),
        ),
      ),
    )

refused : {u : Unit {0}} → ◌≢◌ {A = Checked (Unit {0})} (err merkle_roll_constants_error) (done u)
refused e = cc

check_size-Fits :
    (header : MerkleRollHeader) {u : Unit {0}}
    → check_size header ≡ done u
    → Fits header.max_depth header.max_buffer_size
unfolding check_size
check_size-Fits header e = elim (Bool-cases (known sizes header.max_depth header.max_buffer_size)) [
  | inl t ↦ known-Fits sizes header.max_depth header.max_buffer_size sizes-AllFit t
  | inr f ↦ absurd (
      refused
        (sym (ap (λ (t : Bool). if t then done tt else err merkle_roll_constants_error) f) ∙ e))
]

-- Without an event, the canopy stays as it is.
update_canopy-none :
    (canopy : CanopyBytes) (max_depth : ℕ) {canopy' : CanopyBytes}
    → update_canopy canopy max_depth none ≡ done canopy'
    → canopy ≡ canopy'
unfolding update_canopy
update_canopy-none canopy max_depth e =
    let (_, _, e1) = >>=-eq-done (check_canopy_bytes canopy) _ e in
    let (_, _, e2) = >>=-eq-done (get_cached_path_length canopy.nodes max_depth) _ e1 in
    done-injective e2

module _ (hashv : Node → Node → Node) (acc : Account) (max_depth max_buffer_size : ℕ)
    (authority append_authority slot : ℕ) where
  abbrev pub header : MerkleRollHeader
  header = record {
    max_buffer_size = max_buffer_size;
    max_depth = max_depth;
    authority = authority;
    append_authority = append_authority;
    creation_slot = slot;
  }

  -- For an account with a zeroed roll and canopy, as large as the `p` rows below the root of the
  -- tree: if init_empty_gummyroll returns, roll and canopy are those of the tree with no leaves,
  -- with a buffer of 2 ^ b places for some `b`, and the header is the given one.
  pub init_empty_gummyroll_lem :
      (p n : ℕ) {out : Account × ChangeLogEvent}
      → acc.roll ≡ Roll.new max_depth max_buffer_size
      → n + 2 ≡ 2 ^ (p + 1)
      → p ≤ max_depth
      → acc.canopy ≡ record { nodes = replicate n empty; spare = 0 }
      → init_empty_gummyroll hashv acc max_depth max_buffer_size authority append_authority slot
        ≡ done out
      → (b : ℕ) × IsAccountOf hashv b p out.0 beginning
        × (out.0.header ≡ header)
        × (out.0.id ≡ acc.id)
  unfolding init_empty_gummyroll initialize_header beginning
  init_empty_gummyroll_lem p n {out} new sized held unset e =
      let (made, is_made, e1) =
        >>=-eq-done
          (initialize_header acc.header max_depth max_buffer_size authority append_authority slot) _
          e in
      let (_, _, e2) = >>=-eq-done (assert (acc.header.max_buffer_size == 0)) _ is_made in
      let (_, _, e3) = >>=-eq-done (assert (acc.header.max_depth == 0)) _ e2 in
      let is_header : header ≡ made = done-injective e3 in
      let (_, sizes_known, e4) = >>=-eq-done (check_size made) _ e1 in
      let (b, buffer, words, pos, shallow) = check_size-Fits made sizes_known in
      let (changed, applied, e5) =
        >>=-eq-done (apply_fn (record acc { header = made }) (λ d s r. Api.initialize d s hashv r))
          _ e4 in
      let (root, _, init, _, _) =
        apply_fn-eq-done (record acc { header = made }) (λ d s r. Api.initialize d s hashv r)
          applied in
      let (canopy, updated, e6) = >>=-eq-done (update_canopy acc.canopy max_depth none) _ e5 in
      let (starts, rolls) = initialize_lem hashv made.max_depth b shallow words in
      let blank : acc.roll ≡ Roll.new made.max_depth (2 ^ b) =
        new
        ∙ ap (λ (hd : MerkleRollHeader). Roll.new hd.max_depth hd.max_buffer_size) is_header
        ∙ ap (Roll.new made.max_depth) buffer in
      let same_roll : initialized hashv made.max_depth b ≡ changed.0 =
        ap (λ (c : Node × MerkleRoll). c.1)
          (done-injective (
            sym starts
            ∙ sym (ap (Api.initialize made.max_depth (2 ^ b) hashv) blank)
            ∙ sym (ap (λ (k : ℕ). Api.initialize made.max_depth k hashv acc.roll) buffer)
            ∙ init)) in
      let empty_rows : record { nodes = replicate n empty; spare = 0 } ≡ canopy =
        sym unset ∙ update_canopy-none acc.canopy max_depth updated in
      subst
        (λ (o : Account × ChangeLogEvent).
          (b : ℕ) × IsAccountOf hashv b p o.0 beginning × (o.0.header ≡ header) × (o.0.id ≡ acc.id))
        (done-injective e6)
        (
          b,
          record {
            sized = buffer;
            words = words;
            pos = pos;
            shallow = shallow;
            held = subst (λ (hd : MerkleRollHeader). p ≤ hd.max_depth) is_header held;
            whole = ap (λ (c : CanopyBytes). c.spare) (sym empty_rows);
            rolls = subst (λ r. IsRollOf hashv made.max_depth b r beginning) same_roll rolls;
            rows =
                subst
                  (λ (c : CanopyBytes). IsCanopy hashv made.max_depth p (beginning.past 0) c.nodes)
                  empty_rows (unset-IsCanopy hashv made.max_depth p n sized);
          },
          sym is_header,
          refl,
        )
