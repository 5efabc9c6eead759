-- ===== src/Gumball/Chunks.antt =====
-- The indices of a machine are written in full by enough chunks.
use candyland.Prelude.{
  ℕ, zero, suc, ◌+◌, ◌*◌, ◌^◌, ◌≤◌, ◌<◌, min, ◌≡◌, refl, ap, ◌∙◌, arith, true, length, ◌==◌,
  if◌then◌else◌, done, ◌>>=◌, test_of_eq, test_of_lt, test_of_le,
}
use candyland.Bubblegum.Program.{AccountInfo}
use candyland.Gumball.State.{Checked, Machine}
use candyland.Gumball.Manage.{chunk_size, write_indices, initialize_indices_chunk}
use candyland.Gumball.Invariant.{IsMachine}
use candyland.Gumball.Steps.{initialize_indices_chunk-IsMachine}

-- `n` calls of the authority.
unfoldable pub write_chunks : ℕ → Machine → AccountInfo → Checked Machine
write_chunks zero m authority = done m
write_chunks (suc n) m authority =
    initialize_indices_chunk m authority >>= λ m'. write_chunks n m' authority

-- The machine after a chunk.
abbrev chunked : Machine → Machine
chunked m =
    let h = m.header in
    let next = min (h.smallest_uninitialized_index + chunk_size) h.max_items in
    record m {
      header = record h {
        smallest_uninitialized_index = next;
        remaining = if h.extension_len == 0 then h.max_items else h.remaining;
      };
      indices = write_indices m.indices h.smallest_uninitialized_index next;
    }

initialize_indices_chunk_lem :
    (m : Machine) (authority : AccountInfo)
    → IsMachine m
    → authority.is_signer ≡ true
    → m.header.authority ≡ authority.key
    → m.header.max_items + chunk_size < 2 ^ 32
    → initialize_indices_chunk m authority ≡ done (chunked m)
unfolding initialize_indices_chunk
initialize_indices_chunk_lem m authority ok signs is room =
    let h = m.header in
    let next = min (h.smallest_uninitialized_index + chunk_size) h.max_items in
    rw
      (
        signs,
        test_of_eq _ _ is,
        test_of_lt (h.smallest_uninitialized_index + chunk_size) (2 ^ 32)
            (omega (arith, ok.started)),
        test_of_le h.smallest_uninitialized_index next (omega (arith, ok.started)),
        test_of_le next (length m.indices) (omega (arith, ok.places)),
      )
      refl

-- For a machine in its invariant, its signing authority, and max_items that leaves room for a
-- chunk in a u32: `n` calls of initialize_indices_chunk return as soon as `n` chunks cover the
-- indices not yet written, and all indices are written then.
pub write_chunks_lem :
    (n : ℕ) (m : Machine) (authority : AccountInfo)
    → IsMachine m
    → authority.is_signer ≡ true
    → m.header.authority ≡ authority.key
    → m.header.max_items + chunk_size < 2 ^ 32
    → m.header.max_items ≤ m.header.smallest_uninitialized_index + n * chunk_size
    → (m' : Machine) × (write_chunks n m authority ≡ done m')
      × IsMachine m'
      × (m'.header.max_items ≡ m.header.max_items)
      × (m'.header.smallest_uninitialized_index ≡ m'.header.max_items)
unfolding write_chunks
write_chunks_lem zero m authority ok signs is room enough =
    (m, refl, ok, refl, omega (arith, ok.started))
write_chunks_lem (suc n) m authority ok signs is room enough =
    let first = initialize_indices_chunk_lem m authority ok signs is room in
    let (m', rest, ok', same, full) =
      write_chunks_lem n (chunked m) authority
        (initialize_indices_chunk-IsMachine m authority ok first) signs is room (omega arith) in
    (
      m',
      ap (λ (o : Checked Machine). o >>= λ c. write_chunks n c authority) first ∙ rest,
      ok',
      same,
      full,
    )
