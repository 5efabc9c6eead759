-- ===== src/Gumball/Steps.antt =====
-- Every instruction keeps the invariant of a machine.
use candyland.Prelude.{
  le_of_test, ℕ, ◌+◌, ◌*◌, ◌/◌, ◌%◌, ◌^◌, ◌≤◌, min, max, ◌≡◌, ◌≢◌, inl, inr, sym, ap, subst, ◌∙◌,
  arith, Bool, true, false, Option, none, some, List, length, ltb, leb, ◌==◌, if◌then◌else◌, done,
  panic, done-injective, >>=-eq-done, assert, require, eq_or_ne, test_of_eq, test_of_ne,
}
use candyland.Bubblegum.Program.{AccountInfo}
use candyland.Gumball.State.{invalid_account_data, Checked, Machine, signed, word}
use candyland.Gumball.Manage.{
  chunk_size, write_indices, initialize_indices_chunk, lines_of, add_config_lines,
  update_config_lines, HeaderUpdate, replaced_by, update_header_metadata, destroy,
}
use candyland.Gumball.Sold.{assert-eq-done}
use candyland.Gumball.Paid.{word-eq-done}
use candyland.Gumball.Invariant.{IsMachine, write_indices_lem, same-IsShuffle}

-- The first or the next chunk of indices is written.
pub initialize_indices_chunk-IsMachine :
    (m : Machine) (authority : AccountInfo) {m' : Machine}
    → IsMachine m
    → initialize_indices_chunk m authority ≡ done m'
    → IsMachine m'
unfolding initialize_indices_chunk
initialize_indices_chunk-IsMachine m authority {m'} ok e =
    let h = m.header in
    let first = h.smallest_uninitialized_index in
    let (_, _, e1) = >>=-eq-done (signed authority) _ e in
    let (_, _, e2) = >>=-eq-done (assert (h.authority == authority.key)) _ e1 in
    let (chunk_end, exact, e3) = >>=-eq-done (word 32 (first + chunk_size)) _ e2 in
    let is_end = word-eq-done 32 (first + chunk_size) exact in
    let next = min chunk_end h.max_items in
    let (_, forward, e4) = >>=-eq-done (assert (leb first next)) _ e3 in
    let (_, inside, e5) = >>=-eq-done (assert (leb next (length m.indices))) _ e4 in
    let remaining = if h.extension_len == 0 then h.max_items else h.remaining in
    let bound : remaining ≤ h.max_items = ground (arith, ok.left) in
    let indices = write_indices m.indices first next in
    let (size, at) =
      write_indices_lem m.indices first next (le_of_test first next (assert-eq-done _ forward))
        (le_of_test next (length m.indices) (assert-eq-done _ inside)) in
    subst IsMachine (done-injective e5) (record {
      places = size ∙ ok.places;
      started = omega arith;
      added = ok.added;
      left = bound;
      lines = elim (eq_or_ne h.extension_len 0) [
        | inl z ↦ inl z
        | inr n ↦ elim ok.lines [
          | inl z ↦ absurd (n z)
          | inr le ↦ inr (
              subst (λ (r : ℕ). r ≤ h.total_items_added)
                (sym (ap (λ (t : Bool). if t then h.max_items else h.remaining) (test_of_ne _ _ n)))
                le)
        ]
      ];
      batch = ok.batch;
      filled = elim ok.filled [
        | inl (full, shuffle) ↦ inl (
          omega arith,
          same-IsShuffle h.max_items m.indices indices size
              (λ i. elim (at i) [
                | inl (low, high, _) ↦ absurd (omega arith)
                | inr (_, same) ↦ same
              ])
              shuffle,
        )
        | inr numbered ↦ inr (λ i below. elim (at i) [
          | inl (_, _, is) ↦ is
          | inr (inl lt, same) ↦ same ∙ numbered i lt
          | inr (inr past, _) ↦ absurd (omega arith)
        ])
      ];
    })

-- Lines are added, or those that were added are written again.
pub add_config_lines-IsMachine :
    (m : Machine) (authority : AccountInfo) (new : List ℕ) {m' : Machine}
    → IsMachine m
    → add_config_lines m authority new ≡ done m'
    → IsMachine m'
unfolding add_config_lines
add_config_lines-IsMachine m authority new {m'} ok e =
    let h = m.header in
    let (_, _, e1) = >>=-eq-done (signed authority) _ e in
    let (n, lines, e2) = >>=-eq-done (lines_of new h.extension_len) _ e1 in
    let (_, _, e3) = >>=-eq-done (assert (h.authority == authority.key)) _ e2 in
    let (_, _, e4) = >>=-eq-done (assert (length new % h.extension_len == 0)) _ e3 in
    let (_, fits, e5) = >>=-eq-done (assert (leb (h.total_items_added + n) h.max_items)) _ e4 in
    let (_, _, e6) = >>=-eq-done (assert (leb h.total_items_added (length m.config_lines))) _ e5 in
    let (total, is_total, e7) = >>=-eq-done (word 32 (h.total_items_added + n)) _ e6 in
    let (remaining, is_remaining, e8) = >>=-eq-done (word 32 (h.remaining + n)) _ e7 in
    let room = le_of_test _ _ (assert-eq-done (leb (h.total_items_added + n) h.max_items) fits) in
    let same_total = word-eq-done 32 (h.total_items_added + n) is_total in
    let same_remaining = word-eq-done 32 (h.remaining + n) is_remaining in
    let behind : h.remaining ≤ h.total_items_added = elim ok.lines [
      | inl z ↦ absurd (no_lines new h.extension_len z lines)
      | inr le ↦ le
    ] in
    subst IsMachine (done-injective e8) (record {
      places = ok.places;
      started = ok.started;
      added = omega arith;
      left = omega arith;
      lines = inr (omega arith);
      batch = ok.batch;
      filled = ok.filled;
    })
  where
    no_lines : (new : List ℕ) (size : ℕ) {n : ℕ} → size ≡ 0 → lines_of new size ≢ done n
    no_lines new size z = go (size == 0) (test_of_eq size 0 z)
      where
        go :
            (t : Bool) {n : ℕ}
            → t ≡ true
            → ◌≢◌ {A = Checked ℕ} (if t then panic else done (length new / size)) (done n)
        go true is = λ e. cc
        go false is = cc

pub update_config_lines-IsMachine :
    (m : Machine) (authority : AccountInfo) (starting_line : ℕ) (new : List ℕ) {m' : Machine}
    → IsMachine m
    → update_config_lines m authority starting_line new ≡ done m'
    → IsMachine m'
unfolding update_config_lines
update_config_lines-IsMachine m authority starting_line new {m'} ok e =
    let h = m.header in
    let (_, _, e1) = >>=-eq-done (signed authority) _ e in
    let (config_size, _, e2) = >>=-eq-done (word 64 (h.extension_len * h.max_items)) _ e1 in
    let (n, _, e3) = >>=-eq-done (lines_of new h.extension_len) _ e2 in
    let (_, _, e4) = >>=-eq-done (assert (h.authority == authority.key)) _ e3 in
    let (_, _, e5) = >>=-eq-done (assert (length new % h.extension_len == 0)) _ e4 in
    let (data_size, _, e6) = >>=-eq-done (word 64 (4 * h.max_items + config_size)) _ e5 in
    let (_, _, e7) =
      >>=-eq-done (assert (4 * length m.indices + length m.config_lines == data_size)) _ e6 in
    let (_, _, e8) = >>=-eq-done (assert (length new == n * h.extension_len)) _ e7 in
    let (ending_line, _, e9) = >>=-eq-done (word 64 (starting_line + n)) _ e8 in
    let (_, _, e10) = >>=-eq-done (assert (leb ending_line h.total_items_added)) _ e9 in
    let (start, _, e11) = >>=-eq-done (word 64 (starting_line * h.extension_len)) _ e10 in
    let (_, _, e12) = >>=-eq-done (assert (leb start (length m.config_lines))) _ e11 in
    subst IsMachine (done-injective e12) (record {
      places = ok.places;
      started = ok.started;
      added = ok.added;
      left = ok.left;
      lines = ok.lines;
      batch = ok.batch;
      filled = ok.filled;
    })

pub update_header_metadata-IsMachine :
    (m : Machine) (authority : AccountInfo) (u : HeaderUpdate) {m' : Machine}
    → IsMachine m
    → update_header_metadata m authority u ≡ done m'
    → IsMachine m'
unfolding update_header_metadata
update_header_metadata-IsMachine m authority u {m'} ok e =
    let (_, _, e1) = >>=-eq-done (signed authority) _ e in
    let (_, _, e2) = >>=-eq-done (assert (m.header.authority == authority.key)) _ e1 in
    subst IsMachine (done-injective e2) (record {
      places = ok.places;
      started = ok.started;
      added = ok.added;
      left = ok.left;
      lines = ok.lines;
      batch = bounded u.max_mint_size m.header.max_mint_size m.header.max_items ok.batch;
      filled = ok.filled;
    })
  where
    bounded :
        (new : Option ℕ) (old n : ℕ)
        → old ≤ n
        → replaced_by (λ (x : ℕ). min (max x 1) n) new old ≤ n
    bounded none old n h = h
    bounded (some x) old n h = omega arith

pub destroy-IsMachine :
    (m : Machine) (authority : AccountInfo) (lamports : ℕ) {out : Machine × ℕ}
    → IsMachine m
    → destroy m authority lamports ≡ done out
    → IsMachine out.0
unfolding destroy
destroy-IsMachine m authority lamports {out} ok e =
    let (_, _, e1) = >>=-eq-done (signed authority) _ e in
    let (_, _, e2) = >>=-eq-done (assert (m.header.authority == authority.key)) _ e1 in
    let (_, _, e3) =
      >>=-eq-done (require (ltb (lamports + m.lamports) (2 ^ 64)) invalid_account_data) _ e2 in
    subst (λ (o : Machine × ℕ). IsMachine o.0) (done-injective e3)
      (record {
        places = ok.places;
        started = ok.started;
        added = ok.added;
        left = ok.left;
        lines = ok.lines;
        batch = ok.batch;
        filled = ok.filled;
      })
