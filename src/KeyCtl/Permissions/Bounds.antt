-- ===== src/KeyCtl/Permissions/Bounds.antt =====
-- The masks that `GetPermissions` (keyctl.go) makes.
use Prim.Native.Nat.{◌*◌, ◌^◌, ◌/◌, ◌%◌}
use keyring.Prelude.{ℕ, ◌+◌, ◌<◌, ◌≡◌, arith}
use keyring.Prelude.Bits.{bit_or-add}
use keyring.KeyCtl.Permissions.{
  get_permissions, perm_others, perm_group, perm_user, perm_process, shift_left,
}

-- A shift of a byte to one of the four places loses no bit.
get_permissions-eq-sum :
    (process user group others : ℕ)
    → process < 2 ^ 8
    → user < 2 ^ 8
    → group < 2 ^ 8
    → others < 2 ^ 8
    → get_permissions process user group others
      ≡ others + group * 2 ^ 8 + user * 2 ^ 16 + process * 2 ^ 24
unfolding get_permissions shift_left
get_permissions-eq-sum process user group others p u g o =
    let kept₀ : (others * 2 ^ 0) % 2 ^ 32 ≡ others = omega arith in
    let kept₁ : (group * 2 ^ 8) % 2 ^ 32 ≡ group * 2 ^ 8 = omega arith in
    let kept₂ : (user * 2 ^ 16) % 2 ^ 32 ≡ user * 2 ^ 16 = omega arith in
    let kept₃ : (process * 2 ^ 24) % 2 ^ 32 ≡ process * 2 ^ 24 = omega arith in
    let sum₁ = bit_or-add 8 others group o in
    let sum₂ = bit_or-add 16 (others + group * 2 ^ 8) user (omega arith) in
    let sum₃ = bit_or-add 24 (others + group * 2 ^ 8 + user * 2 ^ 16) process (omega arith) in
    rw (kept₀, kept₁, kept₂, kept₃, sum₁, sum₂) sum₃

-- Where the rights of each class fit a byte, they can be read back from their places in the mask,
-- and the mask fits 32 bits.
pub get_permissions_bounds :
    (process user group others : ℕ)
    → process < 2 ^ 8
    → user < 2 ^ 8
    → group < 2 ^ 8
    → others < 2 ^ 8
    → let perm = get_permissions process user group others in
      (perm / 2 ^ perm_others % 2 ^ 8 ≡ others)
      × (perm / 2 ^ perm_group % 2 ^ 8 ≡ group)
      × (perm / 2 ^ perm_user % 2 ^ 8 ≡ user)
      × (perm / 2 ^ perm_process % 2 ^ 8 ≡ process)
      × (perm < 2 ^ 32)
get_permissions_bounds process user group others p u g o =
    let sum = get_permissions-eq-sum process user group others p u g o in
    (
      omega (arith, sum),
      omega (arith, sum),
      omega (arith, sum),
      omega (arith, sum),
      omega (arith, sum),
    )
