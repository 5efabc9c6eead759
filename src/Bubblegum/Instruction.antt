-- ===== src/Bubblegum/Instruction.antt =====
-- lib.rs of bubblegum: the instruction that a transaction's data names, by its first eight bytes.
use candyland.Prelude.{
  ℕ, Bool, true, false, ◌&&◌, List, [], ◌∷◌, length, take, ltb, ◌==◌, if◌then◌else◌, done, panic,
}
use candyland.Bubblegum.Program.{Checked}

pub data InstructionName : Type 0 where
  unknown mint_v1 redeem cancel_redeem transfer delegate decompress_v1 compress : InstructionName
  burn : InstructionName

abbrev pub same_bytes : List ℕ → List ℕ → Bool
same_bytes [] [] = true
same_bytes [] (b ∷ bs) = false
same_bytes (a ∷ rest) [] = false
same_bytes (a ∷ rest) (b ∷ bs) = (a == b) && same_bytes rest bs

abbrev pub arms : List (List ℕ × InstructionName)
arms =
    (145 ∷ 98 ∷ 192 ∷ 118 ∷ 184 ∷ 147 ∷ 118 ∷ 104 ∷ [], mint_v1)
    ∷ (111 ∷ 76 ∷ 232 ∷ 50 ∷ 39 ∷ 175 ∷ 48 ∷ 242 ∷ [], cancel_redeem)
    ∷ (184 ∷ 12 ∷ 86 ∷ 149 ∷ 70 ∷ 196 ∷ 97 ∷ 225 ∷ [], redeem)
    ∷ (163 ∷ 52 ∷ 200 ∷ 231 ∷ 140 ∷ 3 ∷ 69 ∷ 186 ∷ [], transfer)
    ∷ (90 ∷ 147 ∷ 75 ∷ 178 ∷ 85 ∷ 88 ∷ 4 ∷ 137 ∷ [], delegate)
    ∷ (54 ∷ 85 ∷ 76 ∷ 70 ∷ 228 ∷ 250 ∷ 164 ∷ 81 ∷ [], decompress_v1)
    ∷ (116 ∷ 110 ∷ 29 ∷ 56 ∷ 107 ∷ 219 ∷ 42 ∷ 93 ∷ [], burn)
    ∷ (82 ∷ 193 ∷ 176 ∷ 117 ∷ 176 ∷ 21 ∷ 115 ∷ 253 ∷ [], compress)
    ∷ []

abbrev pub match_arm : List (List ℕ × InstructionName) → List ℕ → InstructionName
match_arm [] disc = unknown
match_arm ((bytes, name) ∷ rest) disc =
    let other = match_arm rest disc in if same_bytes bytes disc then name else other

-- Fewer than eight bytes are a slice out of range.
unfoldable pub get_instruction_type : List ℕ → Checked InstructionName
get_instruction_type full_bytes =
    if ltb (length full_bytes) 8 then panic else done (match_arm arms (take 8 full_bytes))
