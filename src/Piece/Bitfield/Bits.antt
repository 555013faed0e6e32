-- ===== src/Piece/Bitfield/Bits.antt =====
-- src/piece/bitfield.rs: a bit that is set, and the other bits of its byte, for every byte and place.
use Prim.Native.Nat.{bit_and, bit_or}
use moviehouse.Prelude.{
  ℕ, ◌-◌, ◌%◌, ◌^◌, ◌<◌, ◌≡◌, refl, ◌∙◌, arith, Bool, true, false, not, ltb, ltb→lt, ◌==◌,
  if◌then◌else◌,
}
use moviehouse.Prelude.Count.{all_below, all_below_sound}
use moviehouse.Piece.Bitfield.{mask, test_bit}

abbrev eq_bool : Bool → Bool → Bool
eq_bool true b = b
eq_bool false b = not b

eq_bool→eq : (a b : Bool) → eq_bool a b ≡ true → a ≡ b
eq_bool→eq a b h = ground arith

abbrev bit : ℕ → ℕ → Bool
bit byte k = not (bit_and byte (2 ^ k) == 0)

abbrev set_test : ℕ → ℕ → ℕ → Bool
set_test byte k j = eq_bool (bit (bit_or byte (2 ^ k)) j) (if k == j then true else bit byte j)

set_table : all_below 256 (λ byte. all_below 8 (λ k. all_below 8 (λ j. set_test byte k j))) ≡ true
unfolding all_below
set_table = refl

byte_table : all_below 256 (λ byte. all_below 8 (λ k. ltb (bit_or byte (2 ^ k)) 256)) ≡ true
unfolding all_below
byte_table = refl

bit-bit_or :
    (byte k j : ℕ)
    → byte < 256
    → k < 8
    → j < 8
    → bit (bit_or byte (2 ^ k)) j ≡ (if k == j then true else bit byte j)
bit-bit_or byte k j hb hk hj =
    let at_byte = all_below_sound 256 _ byte hb set_table in
    let at_k = all_below_sound 8 (λ k. all_below 8 (λ j. set_test byte k j)) k hk at_byte in
    eq_bool→eq _ _ (all_below_sound 8 (λ j. set_test byte k j) j hj at_k)

pub bit_or-lt : (byte i : ℕ) → byte < 256 → bit_or byte (mask i) < 256
bit_or-lt byte i hb =
    let at_byte = all_below_sound 256 _ byte hb byte_table in
    ltb→lt _ _
      (all_below_sound 8 (λ k. ltb (bit_or byte (2 ^ k)) 256) (7 - i % 8) (omega arith) at_byte)

-- Setting the bit of piece `i` changes no other bit of the byte.
pub test_bit-bit_or :
    (byte i j : ℕ)
    → byte < 256
    → test_bit (bit_or byte (mask i)) j ≡ (if i % 8 == j % 8 then true else test_bit byte j)
unfolding test_bit
test_bit-bit_or byte i j hb =
    bit-bit_or byte (7 - i % 8) (7 - j % 8) hb (omega arith) (omega arith) ∙ same_place
  where
    same_place :
        (if 7 - i % 8 == 7 - j % 8 then true else bit byte (7 - j % 8))
        ≡ (if i % 8 == j % 8 then true else bit byte (7 - j % 8))
    same_place = ground arith
