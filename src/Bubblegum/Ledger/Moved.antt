-- ===== src/Bubblegum/Ledger/Moved.antt =====
-- The instructions that change a leaf, on the ledger.
use candyland.Prelude.{
  ℕ, ◌^◌, ◌<◌, ◌≡◌, ◌≢◌, refl, sym, ap, subst, ◌∙◌, arith, inl, inr, ◌⊎◌, Bool, true, false, ◌||◌,
  Option, none, some, List, [], ◌∷◌, put_at, some-injective, done, panic, require, Bool-cases,
  >>=-eq-done, assert,
}
use candyland.Cmt.Node.{Node, empty}
use candyland.Cmt.Utils.Sound.{IsCollisionFree}
use candyland.Cmt.History.{History, advance}
use candyland.Bubblegum.Schema.{
  LeafSchema, Voucher, Hashes, new_v0, to_node, to_event, get_asset_id,
}
use candyland.Bubblegum.Program.{
  leaf, wrapped_leaf, wrapped_node, Slab, Fault, Emitted, AccountInfo, Checked, initialized, signed,
  replace_leaf, transfer, delegate, burn,
}
use candyland.Bubblegum.Ledger.{
  Holding, compressed, absent, Ledger, schema_of, voucher_of, leaf_of, IsSlab,
}
use candyland.Bubblegum.Ledger.Moves.{Move, Transfers, Delegates, Burns}
use candyland.Bubblegum.Ledger.Leaf.{leaf-compressed}
use candyland.Bubblegum.Ledger.Changed.{changed_lem, replaced_lem, put_at-stays}

panic-ne-done : {A : Type 0} {a : A} → ◌≢◌ {A = Checked A} panic (done a)
panic-ne-done e = cc

one_signed :
    (x y : AccountInfo) {u : Unit {0}}
    → ◌≡◌ {A = Checked (Unit {0})} (assert (x.is_signer || y.is_signer)) (done u)
    → (x.is_signer ≡ true) ⊎ (y.is_signer ≡ true)
one_signed x y e = elim (Bool-cases x.is_signer) [
  | inl t ↦ inl t
  | inr f ↦ elim (Bool-cases y.is_signer) [
    | inl t ↦ inr t
    | inr g ↦
        let neither : (x.is_signer || y.is_signer) ≡ false =
          ap (λ (t : Bool). t || y.is_signer) f ∙ g in
        absurd (panic-ne-done (sym (ap (λ (t : Bool). assert {E = Fault} t) neither) ∙ e))
  ]
]

pub require-eq-done :
    (t : Bool) (fault : Fault) {u : Unit {0}}
    → ◌≡◌ {A = Checked (Unit {0})} (require t fault) (done u)
    → t ≡ true
require-eq-done true fault e = refl
require-eq-done false fault e = cc

-- A schema with the nonce and the key of another is named as it is.
pub named :
    (s t : LeafSchema)
    → t.nonce ≡ s.nonce
    → t.id ≡ s.id
    → (r : LeafSchema) → some t ≡ some r
    → (r.nonce ≡ s.nonce) × (r.id ≡ s.id)
named s t nonce id r e =
    subst (λ (x : LeafSchema). (x.nonce ≡ s.nonce) × (x.id ≡ s.id)) (some-injective e) (nonce, id)

-- One asset moved as `moves` says, and the accounts are those of the ledger after it.
abbrev pub IsStep : Hashes → ℕ → ℕ → Move → Slab → Ledger → Slab → Type 0
IsStep hashes b p moves slab ledger slab' =
    (i : ℕ) × (holding : Holding) × (h : History) × moves i (ledger i) holding
    × IsSlab hashes b p slab' h (put_at i holding ledger)

module _ (hashes : Hashes) (free : IsCollisionFree hashes.node)
    (nonzero : (x y : Node) → hashes.node x y ≢ empty)
    (leaf_free : (xs ys : List ℕ) → hashes.leaf xs ≡ hashes.leaf ys → xs ≡ ys)
    (leaf_nonzero : (xs : List ℕ) → hashes.leaf xs ≢ empty) (b p : ℕ) (slab : Slab) (h : History)
    (ledger : Ledger) (ok : IsSlab hashes b p slab h ledger) where
  abbrev id : ℕ
  id = slab.account.id

  -- No voucher is for an asset in the tree.
  no_voucher :
      (i : ℕ) (s : LeafSchema)
      → ledger i ≡ compressed s
      → (k : ℕ) → slab.vouchers k ≡ put_at i none slab.vouchers k
  no_voucher i s e = put_at-stays i none slab.vouchers (ok.vouchers i ∙ ap (voucher_of id i) e)

  -- The leaf of an asset was replaced by that of what it becomes, which keeps its name.
  pub taken_lem :
      (s : LeafSchema) (holding : Holding) (emitted : List Emitted) (accounts : List Node)
      (root : Node) (index : ℕ) {out : Slab × List Emitted}
      → index < 2 ^ slab.account.header.max_depth
      → ((t : LeafSchema) → schema_of holding ≡ some t → (t.nonce ≡ s.nonce) × (t.id ≡ s.id))
      → replace_leaf hashes slab emitted accounts root
          (to_node hashes s)
          (leaf_of hashes holding)
          index
        ≡ done out
      → (ledger index ≡ compressed s)
        × (s.nonce ≡ index)
        × (out.0.vouchers ≡ slab.vouchers)
        × ((vouchers : ℕ → Option Voucher)
            → ((k : ℕ) → vouchers k ≡ put_at index (voucher_of id index holding) slab.vouchers k)
            → IsSlab hashes b p
                (record out.0 { vouchers = vouchers })
                (advance index (leaf_of hashes holding) h)
                (put_at index holding ledger))
  unfolding advance
  taken_lem s holding emitted accounts root index {out} inside same e =
      let (stood, kept, authority, vouchers, key) =
        replaced_lem hashes b p slab h ledger ok free nonzero emitted accounts root
          (to_node hashes s) (leaf_of hashes holding) index inside e in
      let here =
        leaf-compressed hashes leaf_free leaf_nonzero s (ledger index) (stood ∙ ok.leaves index) in
      let belongs = ok.belongs index s (ap schema_of here) in
      (
        here,
        belongs.nonced,
        vouchers,
        λ vs at.
            changed_lem hashes b p slab h ledger ok (record out.0 { vouchers = vs })
              (advance index (leaf_of hashes holding) h) index holding (omega arith) (omega arith)
              (λ i. refl) kept (authority ∙ ok.counted ∙ ap some (omega (arith, belongs.minted)))
              key at
              (λ t is.
                let (nonced, named) = same t is in
                (nonced ∙ belongs.nonced, named ∙ belongs.named)),
      )

  -- Nothing stands in the vouchers for what stays in the tree or leaves it for good.
  pub moved_lem :
      (moves : Move) (s : LeafSchema) (holding : Holding) (emitted : List Emitted)
      (accounts : List Node) (root : Node) (index : ℕ) {out : Slab × List Emitted}
      → index < 2 ^ slab.account.header.max_depth
      → ((t : LeafSchema) → schema_of holding ≡ some t → (t.nonce ≡ s.nonce) × (t.id ≡ s.id))
      → voucher_of id index holding ≡ none
      → (s.nonce ≡ index → moves index (compressed s) holding)
      → replace_leaf hashes slab emitted accounts root
          (to_node hashes s)
          (leaf_of hashes holding)
          index
        ≡ done out
      → IsStep hashes b p moves slab ledger out.0
  moved_lem moves s holding emitted accounts root index {out} inside same empty_here as_meant e =
      let (here, nonced, vouchers, slab_of) =
        taken_lem s holding emitted accounts root index inside same e in
      (
        index,
        holding,
        advance index (leaf_of hashes holding) h,
        subst (λ x. moves index x holding) (sym here) (as_meant nonced),
        slab_of out.0.vouchers (λ k.
            ap (λ (vs : ℕ → Option Voucher). vs k) vouchers
            ∙ no_voucher index s here k
            ∙ ap (λ (v : Option Voucher). put_at index v slab.vouchers k) (sym empty_here)),
      )

  module _ (accounts : List Node) (root data_hash creator_hash : Node) (nonce index : ℕ)
      {out : Slab × List Emitted} (inside : index < 2 ^ slab.account.header.max_depth) where
    pub transfer-IsStep :
        (owner delegate : AccountInfo) (new_owner : ℕ)
        → transfer hashes slab owner delegate new_owner accounts root data_hash creator_hash nonce
            index
          ≡ done out
        → IsStep hashes b p
            (Transfers hashes slab owner delegate new_owner nonce data_hash creator_hash index)
            slab
            ledger
            out.0
    unfolding transfer get_asset_id new_v0
    transfer-IsStep owner delegate new_owner e =
        let (_, _, e1) = >>=-eq-done (initialized slab.authority) _ e in
        let (_, may, e2) = >>=-eq-done (assert (owner.is_signer || delegate.is_signer)) _ e1 in
        let s =
          new_v0 (get_asset_id hashes id nonce) owner.key delegate.key nonce data_hash
            creator_hash in
        moved_lem
          (Transfers hashes slab owner delegate new_owner nonce data_hash creator_hash index) s
          (compressed (record s { owner = new_owner; delegate = new_owner }))
          (leaf (
              to_event hashes (
                new_v0 (get_asset_id hashes id nonce) new_owner new_owner nonce data_hash
                  creator_hash))
            ∷ [])
          accounts root index inside (named s _ refl refl) refl
          (λ nonced. (refl, nonced, one_signed owner delegate may, refl, refl)) e2

    pub delegate-IsStep :
        (owner : AccountInfo) (previous_delegate new_delegate : ℕ)
        → delegate hashes slab owner previous_delegate new_delegate accounts root data_hash
            creator_hash nonce index
          ≡ done out
        → IsStep hashes b p
            (Delegates hashes slab owner previous_delegate new_delegate nonce data_hash creator_hash
              index)
            slab
            ledger
            out.0
    unfolding delegate get_asset_id new_v0
    delegate-IsStep owner previous_delegate new_delegate e =
        let (_, _, e1) = >>=-eq-done (initialized slab.authority) _ e in
        let (_, is, e2) = >>=-eq-done (signed owner) _ e1 in
        let s =
          new_v0 (get_asset_id hashes id nonce) owner.key previous_delegate nonce data_hash
            creator_hash in
        moved_lem
          (Delegates hashes slab owner previous_delegate new_delegate nonce data_hash creator_hash
            index)
          s (compressed (record s { delegate = new_delegate }))
          (wrapped_leaf (record s { delegate = new_delegate })
            ∷ leaf (to_event hashes (record s { delegate = new_delegate }))
            ∷ [])
          accounts root index inside (named s _ refl refl) refl
          (λ nonced. (refl, nonced, require-eq-done owner.is_signer _ is, refl, refl)) e2

    pub burn-IsStep :
        (owner delegate : AccountInfo)
        → burn hashes slab owner delegate accounts root data_hash creator_hash nonce index
          ≡ done out
        → IsStep hashes b p
            (Burns hashes slab owner delegate nonce data_hash creator_hash index)
            slab
            ledger
            out.0
    unfolding burn get_asset_id new_v0
    burn-IsStep owner delegate e =
        let (_, _, e1) = >>=-eq-done (initialized slab.authority) _ e in
        let (_, may, e2) = >>=-eq-done (assert (owner.is_signer || delegate.is_signer)) _ e1 in
        let s =
          new_v0 (get_asset_id hashes id nonce) owner.key delegate.key nonce data_hash
            creator_hash in
        moved_lem (Burns hashes slab owner delegate nonce data_hash creator_hash index) s absent
          (leaf (to_event hashes s) ∷ wrapped_node empty ∷ []) accounts root index inside
          (λ t is. cc) refl (λ nonced. (refl, nonced, one_signed owner delegate may, refl, refl)) e2
