-- ===== src/Types/KvMeta.antt =====
-- `KVMeta`: | key size 14 | val size 14 | offset 16 | type 2 | fence 1 | ref 1 | look ahead 16 |.
pub mod Layout
use quickstep.Base.{ℕ, ◌+◌, ◌-◌, ◌*◌, ◌/◌, ◌%◌, ◌^◌, Bool, true, false, Option, none, ◌||◌}
use quickstep.Base.{bit_and, bit_or, ◌==◌}
use quickstep.Base.Words.{shl, shr, bit_not, from_bool}
use quickstep.Types.RecordType.{RecordType, insert, tombstone, cache, phantom, to_bits, from_bits}

-- `acc |= field << k` for each field in turn.
unfoldable pub new : ℕ → ℕ → ℕ → RecordType → Bool → Bool → ℕ → ℕ
unfolding to_bits
new key_size val_size offset typ is_fence refb lookahead =
    let acc₁ = bit_or 0 (shl key_size 50) in
    let acc₂ = bit_or acc₁ (shl val_size 36) in
    let acc₃ = bit_or acc₂ (shl offset 20) in
    let acc₄ = bit_or acc₃ (shl (to_bits typ) 18) in
    let acc₅ = bit_or acc₄ (shl (from_bool is_fence) 17) in
    let acc₆ = bit_or acc₅ (shl (from_bool refb) 16) in bit_or acc₆ lookahead

unfoldable pub key_size : ℕ → ℕ
key_size m = shr m 50

unfoldable pub val_size : ℕ → ℕ
val_size m = shr (shl m 14) 50

unfoldable pub offset : ℕ → ℕ
offset m = shr (shl m 28) 48

-- `todo!()`: both setters panic, which is `none`.
unfoldable pub set_key_size : ℕ → ℕ → Option ℕ
set_key_size m size = none

unfoldable pub set_val_size : ℕ → ℕ → Option ℕ
set_val_size m size = none

unfoldable pub set_offset : ℕ → ℕ → ℕ
set_offset m off = bit_or (bit_and m (bit_not (shl 0xffff 20))) (shl off 20)

unfoldable pub typ : ℕ → RecordType
unfolding from_bits
typ m = from_bits (shr (shl m 44) 62)

unfoldable pub fence : ℕ → Bool
fence m = bit_and (shl 1 17) m == shl 1 17

unfoldable pub ref_bit : ℕ → Bool
ref_bit m = bit_and (shl 1 16) m == shl 1 16

unfoldable pub set_ref_bit : ℕ → Bool → ℕ
set_ref_bit m val = bit_or (bit_and m (bit_not (shl 1 16))) (shl (from_bool val) 16)

unfoldable pub is_dirty : ℕ → Bool
unfolding typ
is_dirty m = elim (typ m) [ insert ↦ true | tombstone ↦ true | _ ↦ false ]

unfoldable pub set_record_type : ℕ → RecordType → ℕ
unfolding to_bits
set_record_type m t = bit_or (bit_and m (bit_not (shl 3 18))) (shl (to_bits t) 18)

unfoldable pub look_ahead : ℕ → ℕ
look_ahead m = bit_and 0xffff m
