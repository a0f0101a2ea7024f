-- ===== src/Utils/Examples.antt =====
-- Child pointers on concrete numbers.
use quickstep.Base.{◌+◌, ◌%◌, ◌^◌, ◌≡◌, [], ◌∷◌, ◌++◌, drop}
use quickstep.Utils.{store_u48, extract_u48, store_u32, extract_u32}
use quickstep.Utils.RoundTrip.{extract-store}

extract-store_example :
    (extract_u48 (store_u48 (2 ^ 48 + 5) ++ (1 ∷ [])) ≡ (2 ^ 48 + 5) % 2 ^ 48)
    × (extract_u32 (store_u32 (2 ^ 48 + 5) ++ (1 ∷ [])) ≡ 0)
    × (extract_u32 (drop 4 (store_u32 (2 ^ 48 + 5) ++ (1 ∷ []))) ≡ (2 ^ 48 + 5) % 2 ^ 32)
extract-store_example = extract-store (2 ^ 48 + 5) (1 ∷ [])
