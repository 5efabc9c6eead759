-- ===== src/Gumball/Stays.antt =====
-- A machine's items in bubblegum's ledger: what becomes of them under any calls.
use candyland.Prelude.{ℕ, ◌≡◌, ◌≢◌, sym, subst, ◌∙◌, inl, inr, List, put_at, done, eq_or_ne}
use candyland.Cmt.Node.{Node, empty}
use candyland.Cmt.Utils.Sound.{IsCollisionFree}
use candyland.Cmt.History.{History}
use candyland.Bubblegum.Metadata.{MetadataArgs, token2022}
use candyland.Bubblegum.Schema.{Hashes}
use candyland.Bubblegum.Program.{Slab, Emitted, Checked}
use candyland.Bubblegum.Decompress.{TokenCall}
use candyland.Bubblegum.Ledger.{Holding, Ledger, absent, compressed, redeemed, IsSlab}
use candyland.Bubblegum.Ledger.Changed.{put_at-same, put_at-other}
use candyland.Bubblegum.Ledger.Calls.{
  Call, mints, transfers, delegates, burns, redeems, cancels, decompresses, Inside, meaning, run,
  run-IsStep,
}
use candyland.Gumball.State.{EncodeMethod, GumballMachineHeader}
use candyland.Gumball.Metadata.{get_metadata_args}
use candyland.Gumball.Stuck.{minted_for, original-ne-token2022}

-- The asset is in the tree or in a voucher, and has the data hash.
abbrev pub Has : Node → Holding → Type 0
Has hash absent = ⊥
Has hash (compressed s) = s.data_hash ≡ hash
Has hash (redeemed s) = s.data_hash ≡ hash

-- The call does not burn the leaf at `i`.
abbrev pub Spares : ℕ → Call → Type 0
Spares i (mints _ _ _ _) = Unit {0}
Spares i (transfers _ _ _ _) = Unit {0}
Spares i (delegates _ _ _ _) = Unit {0}
Spares i (burns _ _ g) = g.index ≢ i
Spares i (redeems _ _ _) = Unit {0}
Spares i (cancels _ _ _ _) = Unit {0}
Spares i (decompresses _ _ _ _) = Unit {0}

module _ (hashes : Hashes) (invoke : TokenCall → Checked (Unit {0})) (i : ℕ) where
  -- The slabs after calls that returned and that did not burn the leaf at `i`.
  pub data Spared (start : Slab) : Slab → Type 0 where
    here : Spared start start
    after :
        {slab : Slab} {out : Slab × List Emitted}
        → Spared start slab
        → (c : Call) → Inside slab.account.header.max_depth c
        → Spares i c
        → run hashes invoke slab c ≡ done out
        → Spared start out.0

  module _ (args : MetadataArgs) (version : args.token_program_version ≡ token2022)
      (tells : (x y : MetadataArgs)
        → hashes.metadata x ≡ hashes.metadata y
        → x.token_program_version ≡ y.token_program_version) where
    abbrev hash : Node
    hash = hashes.metadata args

    meaning-Has :
        (slab : Slab) (c : Call) (before holding : Holding)
        → meaning hashes slab c i before holding
        → Spares i c
        → Has hash before
        → Has hash holding
    meaning-Has slab (mints m o d message) before holding (_, _, _, old, new) spares has =
        absurd (subst (Has hash) old has)
    meaning-Has slab (transfers o d n g) before holding (_, _, _, old, new) spares has =
        subst (Has hash) (sym new) (subst (Has hash) old has)
    meaning-Has slab (delegates o d n g) before holding (_, _, _, old, new) spares has =
        subst (Has hash) (sym new) (subst (Has hash) old has)
    meaning-Has slab (burns o d g) before holding (at, _, _, old, new) spares has =
        absurd (spares (sym at))
    meaning-Has slab (redeems o d g) before holding (_, _, _, old, new) spares has =
        subst (Has hash) (sym new) (subst (Has hash) old has)
    meaning-Has slab (cancels o nonce accounts root) before holding (_, _, (s, _, old, new)) spares
          has =
        subst (Has hash) (sym new) (subst (Has hash) old has)
    meaning-Has slab (decompresses o nonce accounts metadata) before holding
          (_, _, original, (s, _, hashed, old), _) spares has =
        absurd (
          original-ne-token2022
            (sym original ∙ tells metadata args (sym hashed ∙ subst (Has hash) old has) ∙ version))

    -- A step at any place keeps the asset at `i`.
    step-Has :
        (slab : Slab) (c : Call) (ledger : Ledger) (j : ℕ) (holding : Holding)
        → meaning hashes slab c j (ledger j) holding
        → Spares i c
        → Has hash (ledger i)
        → Has hash (put_at j holding ledger i)
    step-Has slab c ledger j holding means spares has = elim (eq_or_ne i j) [
      | inl e ↦ subst (Has hash) (sym (put_at-same j holding ledger i e)) (
          meaning-Has slab c (ledger i) holding
            (subst (λ k. meaning hashes slab c k (ledger k) holding) (sym e) means) spares has)
      | inr n ↦ subst (Has hash) (sym (put_at-other j holding ledger i n)) has
    ]

    module _ (free : IsCollisionFree hashes.node) (nonzero : (x y : Node) → hashes.node x y ≢ empty)
        (leaf_free : (xs ys : List ℕ) → hashes.leaf xs ≡ hashes.leaf ys → xs ≡ ys)
        (leaf_nonzero : (xs : List ℕ) → hashes.leaf xs ≢ empty) where
      pub Spared-Has :
          (b p : ℕ) (start : Slab) (h : History) (ledger : Ledger)
          → IsSlab hashes b p start h ledger
          → Has hash (ledger i)
          → {slab : Slab} → Spared start slab
          → (h' : History) × (ledger' : Ledger) × IsSlab hashes b p slab h' ledger'
            × Has hash (ledger' i)
      Spared-Has b p start h ledger ok has here = (h, ledger, ok, has)
      Spared-Has b p start h ledger ok has (after {slab} reached c inside spares e) =
          let (h', ledger', ok', has') = Spared-Has b p start h ledger ok has reached in
          let (j, holding, h'', means, ok'') =
            run-IsStep hashes invoke free nonzero leaf_free leaf_nonzero b p slab h' ledger' ok' c
              inside e in
          (h'', put_at j holding ledger', ok'', step-Has slab c ledger' j holding means spares has')

-- For hashes without collisions that are never zero, and a hash of metadata that tells token
-- programs apart: on accounts that are those of a ledger, an asset with the data hash of the
-- metadata that get_metadata_args makes for a machine's item is, after any calls of bubblegum
-- that returned, in any order and for leaves inside the tree, none of which burned the leaf at
-- its place, still in the tree or in a voucher of the ledger that the accounts are those of, with
-- that data hash.
pub item-stays :
    (hashes : Hashes) (invoke : TokenCall → Checked (Unit {0})) (free : IsCollisionFree hashes.node)
    (nonzero : (x y : Node) → hashes.node x y ≢ empty)
    (leaf_free : (xs ys : List ℕ) → hashes.leaf xs ≡ hashes.leaf ys → xs ≡ ys)
    (leaf_nonzero : (xs : List ℕ) → hashes.leaf xs ≢ empty)
    (tells : (x y : MetadataArgs)
      → hashes.metadata x ≡ hashes.metadata y
      → x.token_program_version ≡ y.token_program_version)
    (base58 : List ℕ → List ℕ) (header : GumballMachineHeader) (index : ℕ) (config_line : List ℕ)
    (method : EncodeMethod) {args : MetadataArgs}
    → get_metadata_args base58 header index config_line method ≡ done args
    → (b p : ℕ) (start : Slab) (h : History) (ledger : Ledger) → IsSlab hashes b p start h ledger
    → (i : ℕ) → Has (hashes.metadata args) (ledger i)
    → {slab : Slab} → Spared hashes invoke i start slab
    → (h' : History) × (ledger' : Ledger) × IsSlab hashes b p slab h' ledger'
      × Has (hashes.metadata args) (ledger' i)
item-stays hashes invoke free nonzero leaf_free leaf_nonzero tells base58 header index config_line
      method {args} made b p start h ledger ok i has spared =
    Spared-Has hashes invoke i args (minted_for base58 header index config_line method made) tells
      free nonzero leaf_free leaf_nonzero b p start h ledger ok has spared
