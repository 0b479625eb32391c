-- ===== src/Util/Crc32c.antt =====
-- util/crc32c.h: the masked form in which a checksum is stored. The checksum itself, in
-- util/crc32c.cpp, is not modelled.
use Prim.Native.Nat.{bit_or}
use level_db.Common.{ℕ, ◌+◌, ◌-◌, ◌*◌, ◌/◌, ◌%◌, ◌^◌, ◌<◌, ◌≡◌, ap, ◌∙◌, arith}
use level_db.Common.Bits.{bit_or-shifted}
use level_db.Util.Coding.{u32_mod}

abbrev pub mask_delta : ℕ
mask_delta = 0xa282ead8

unfoldable pub mask : ℕ → ℕ
mask crc = (bit_or (crc / 2 ^ 15) (crc * 2 ^ 17 % u32_mod) + mask_delta) % u32_mod

-- `masked_crc - kMaskDelta` wraps around.
unfoldable pub unmask : ℕ → ℕ
unmask masked_crc =
    let rot = (masked_crc + (u32_mod - mask_delta)) % u32_mod in
    bit_or (rot / 2 ^ 17) (rot * 2 ^ 15 % u32_mod)

rotated_right :
    (crc : ℕ)
    → crc < 2 ^ 32
    → bit_or (crc / 2 ^ 15) (crc * 2 ^ 17 % u32_mod) ≡ crc / 2 ^ 15 + crc % 2 ^ 15 * 2 ^ 17
rotated_right crc h =
    ap (bit_or (crc / 2 ^ 15)) (omega arith)
    ∙ bit_or-shifted 17 (crc / 2 ^ 15) (crc % 2 ^ 15) (omega arith)

rotated_left :
    (rot : ℕ)
    → rot < 2 ^ 32
    → bit_or (rot / 2 ^ 17) (rot * 2 ^ 15 % u32_mod) ≡ rot / 2 ^ 17 + rot % 2 ^ 17 * 2 ^ 15
rotated_left rot h =
    ap (bit_or (rot / 2 ^ 17)) (omega arith)
    ∙ bit_or-shifted 15 (rot / 2 ^ 17) (rot % 2 ^ 17) (omega arith)

-- For a checksum below 2^32, Unmask undoes Mask, and the masked form is below 2^32.
pub unmask-mask : (crc : ℕ) → crc < 2 ^ 32 → (unmask (mask crc) ≡ crc) × (mask crc < 2 ^ 32)
unfolding unmask mask
unmask-mask crc h =
    rw (rotated_right crc h)
      (rw back (rotated_left rotated (omega arith) ∙ omega arith), omega arith)
  where
    rotated : ℕ
    rotated = crc / 2 ^ 15 + crc % 2 ^ 15 * 2 ^ 17

    back : ((rotated + mask_delta) % u32_mod + (u32_mod - mask_delta)) % u32_mod ≡ rotated
    back = omega arith
