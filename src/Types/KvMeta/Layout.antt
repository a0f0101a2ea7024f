-- ===== src/Types/KvMeta/Layout.antt =====
-- The packed word against a plain record of its fields.
use quickstep.Base.{ℕ, ◌+◌, ◌-◌, ◌*◌, ◌/◌, ◌%◌, ◌^◌, ◌<◌, ◌≡◌, ◌∙◌, arith, Bool, true, false}
use quickstep.Base.{bit_and, bit_or, ◌==◌}
use quickstep.Base.Bits.{and_comm, and_field, zero_or, and_outside, and_low, or_gap, or_low}
use native.Mathlib.Nat.{one-le-pow}
use quickstep.Base.Words.{IsU64, shl, from_bool}
use quickstep.Types.RecordType.{RecordType, to_bits, from_bits}
use quickstep.Types.KvMeta

pub record Fields : Type 0 where
  pub key_size : ℕ
  pub val_size : ℕ
  pub offset : ℕ
  pub typ : RecordType
  pub fence : Bool
  pub ref_bit : Bool
  pub look_ahead : ℕ

-- What the seven getters read.
unfoldable pub fields : ℕ → Fields
unfolding KvMeta.key_size KvMeta.val_size KvMeta.offset KvMeta.typ KvMeta.fence KvMeta.ref_bit
    KvMeta.look_ahead
fields m = record {
  key_size = KvMeta.key_size m;
  val_size = KvMeta.val_size m;
  offset = KvMeta.offset m;
  typ = KvMeta.typ m;
  fence = KvMeta.fence m;
  ref_bit = KvMeta.ref_bit m;
  look_ahead = KvMeta.look_ahead m;
}

pub record IsFitting (f : Fields) : Type 0 where
  pub key_size : f.key_size < 2 ^ 14
  pub val_size : f.val_size < 2 ^ 14
  pub offset : f.offset < 2 ^ 16
  pub look_ahead : f.look_ahead < 2 ^ 16

-- The word as a sum of its fields.
abbrev pub pack : Fields → ℕ
unfolding to_bits
pack f =
    (((((f.key_size * 2 ^ 14 + f.val_size) * 2 ^ 16 + f.offset) * 2 ^ 2 + to_bits f.typ) * 2
            + from_bool f.fence)
          * 2
        + from_bool f.ref_bit)
      * 2 ^ 16
    + f.look_ahead

-- Each getter in plain arithmetic.
abbrev unpack : ℕ → Fields
unfolding from_bits
unpack m = record {
  key_size = m / 2 ^ 50;
  val_size = m / 2 ^ 36 % 2 ^ 14;
  offset = m / 2 ^ 20 % 2 ^ 16;
  typ = from_bits (m / 2 ^ 18 % 4);
  fence = m / 2 ^ 17 % 2 == 1;
  ref_bit = m / 2 ^ 16 % 2 == 1;
  look_ahead = m % 2 ^ 16;
}

-- `(1 << k) & x == 1 << k` tests bit `k`.
flag_test : (k x : ℕ) → (bit_and (2 ^ k) x == 2 ^ k) ≡ (x / 2 ^ k % 2 == 1)
flag_test k x = ground (arith, and_comm (2 ^ k) x, and_field k 1 x, one-le-pow k 2)

fields-eq-unpack : (m : ℕ) → fields m ≡ unpack m
unfolding fields from_bits
fields-eq-unpack m = ground (arith, flag_test 17 m, flag_test 16 m, and_comm 0xffff m, and_low 16 m)

unpack-pack : (f : Fields) → IsFitting f → unpack (pack f) ≡ f
unfolding to_bits from_bits
unpack-pack f h = ground arith

-- Setting seven fields from the highest down adds them up.
or_fields :
    (k v o t f r l : ℕ)
    → k < 2 ^ 14
    → v < 2 ^ 14
    → o < 2 ^ 16
    → t < 4
    → f < 2
    → r < 2
    → l < 2 ^ 16
    → bit_or
        (bit_or
          (bit_or
            (bit_or (bit_or (bit_or (bit_or 0 (shl k 50)) (shl v 36)) (shl o 20)) (shl t 18))
            (shl f 17))
          (shl r 16))
        l
      ≡ (((((k * 2 ^ 14 + v) * 2 ^ 16 + o) * 2 ^ 2 + t) * 2 + f) * 2 + r) * 2 ^ 16 + l
or_fields k v o t f r l hk hv ho ht hf hr hl = ground (
  arith,
  zero_or (k * 2 ^ 50),
  or_low 50 k (v * 2 ^ 36),
  or_low 36 (k * 2 ^ 14 + v) (o * 2 ^ 20),
  or_low 20 ((k * 2 ^ 14 + v) * 2 ^ 16 + o) (t * 2 ^ 18),
  or_low 18 (((k * 2 ^ 14 + v) * 2 ^ 16 + o) * 2 ^ 2 + t) (f * 2 ^ 17),
  or_low 17 ((((k * 2 ^ 14 + v) * 2 ^ 16 + o) * 2 ^ 2 + t) * 2 + f) (r * 2 ^ 16),
  or_low 16 (((((k * 2 ^ 14 + v) * 2 ^ 16 + o) * 2 ^ 2 + t) * 2 + f) * 2 + r) l,
)

-- Reading a word built by `new` gives back the seven fields, when each fits its bits; and the
-- word is below 2 ^ 64.
pub fields-new :
    (f : Fields)
    → IsFitting f
    → let m = KvMeta.new f.key_size f.val_size f.offset f.typ f.fence f.ref_bit f.look_ahead in
      IsU64 m × (fields m ≡ f)
fields-new f h = rw new-eq-pack (pack_small, fields-eq-unpack (pack f) ∙ unpack-pack f h)
  where
    pack_small : IsU64 (pack f)
    pack_small = unfold to_bits in ground arith

    new-eq-pack :
        KvMeta.new f.key_size f.val_size f.offset f.typ f.fence f.ref_bit f.look_ahead ≡ pack f
    new-eq-pack =
        unfold KvMeta.new to_bits in
        ground (
          arith,
          or_fields f.key_size f.val_size f.offset (to_bits f.typ) (from_bool f.fence)
              (from_bool f.ref_bit) f.look_ahead,
        )

set_offset_sum :
    (m off : ℕ)
    → IsU64 m
    → off < 2 ^ 16
    → KvMeta.set_offset m off ≡ m / 2 ^ 36 * 2 ^ 36 + off * 2 ^ 20 + m % 2 ^ 20
unfolding KvMeta.set_offset
set_offset_sum m off hm h = ground (
  arith,
  and_outside 20 36 (2 ^ 28 - 1) m (omega arith),
  and_low 28 (m / 2 ^ 36),
  or_gap 20 16 (m / 2 ^ 36) off (m % 2 ^ 20),
)

-- `set_offset` changes the offset and no other field, and the result is again a word.
pub fields-set_offset :
    (m off : ℕ)
    → IsU64 m
    → off < 2 ^ 16
    → IsU64 (KvMeta.set_offset m off)
      × (fields (KvMeta.set_offset m off) ≡ record (fields m) { offset = off })
unfolding from_bits
fields-set_offset m off hm h =
    rw (set_offset_sum m off hm h)
      (omega arith, rw (fields-eq-unpack, fields-eq-unpack) (ground arith))

flag_sum :
    (m : ℕ) (b : Bool)
    → IsU64 m
    → KvMeta.set_ref_bit m b ≡ m / 2 ^ 17 * 2 ^ 17 + from_bool b * 2 ^ 16 + m % 2 ^ 16
unfolding KvMeta.set_ref_bit
flag_sum m b hm = ground (
  arith,
  and_outside 16 17 (2 ^ 47 - 1) m (omega arith),
  and_low 47 (m / 2 ^ 17),
  or_gap 16 1 (m / 2 ^ 17) (from_bool b) (m % 2 ^ 16),
)

-- `set_ref_bit` changes the reference bit and no other field, and the result is again a word.
pub fields-set_ref_bit :
    (m : ℕ) (b : Bool)
    → IsU64 m
    → IsU64 (KvMeta.set_ref_bit m b)
      × (fields (KvMeta.set_ref_bit m b) ≡ record (fields m) { ref_bit = b })
unfolding from_bits
fields-set_ref_bit m true hm =
    rw (flag_sum m true hm) (omega arith, rw (fields-eq-unpack, fields-eq-unpack) (ground arith))
fields-set_ref_bit m false hm =
    rw (flag_sum m false hm) (omega arith, rw (fields-eq-unpack, fields-eq-unpack) (ground arith))

type_sum :
    (m : ℕ) (t : RecordType)
    → IsU64 m
    → KvMeta.set_record_type m t ≡ m / 2 ^ 20 * 2 ^ 20 + to_bits t * 2 ^ 18 + m % 2 ^ 18
unfolding KvMeta.set_record_type to_bits
type_sum m t hm = ground (
  arith,
  and_outside 18 20 (2 ^ 44 - 1) m (omega arith),
  and_low 44 (m / 2 ^ 20),
  or_gap 18 2 (m / 2 ^ 20) (to_bits t) (m % 2 ^ 18),
)

-- `set_record_type` changes the type and no other field, and the result is again a word.
pub fields-set_record_type :
    (m : ℕ) (t : RecordType)
    → IsU64 m
    → IsU64 (KvMeta.set_record_type m t)
      × (fields (KvMeta.set_record_type m t) ≡ record (fields m) { typ = t })
unfolding to_bits from_bits
fields-set_record_type m t hm =
    rw (type_sum m t hm) (ground arith, rw (fields-eq-unpack, fields-eq-unpack) (ground arith))
