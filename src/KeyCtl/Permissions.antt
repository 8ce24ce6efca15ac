-- ===== src/KeyCtl/Permissions.antt =====
-- The permissions of keys (keyctl.go), as bits of a mask.
pub mod Bounds
use Prim.Native.Nat.{bit_or, ◌*◌, ◌^◌, ◌%◌}
use keyring.Prelude.{ℕ}

-- The rights of one class of users, as bits.
abbrev pub perm_view : ℕ
perm_view = 1

abbrev pub perm_search : ℕ
perm_search = 8

abbrev pub perm_all : ℕ
perm_all = 63

-- Where the rights of each class stand in a mask.
abbrev pub perm_others : ℕ
perm_others = 0

abbrev pub perm_group : ℕ
perm_group = 8

abbrev pub perm_user : ℕ
perm_user = 16

abbrev pub perm_process : ℕ
perm_process = 24

-- `uint32` shifts, which drop the bits beyond the 32nd.
shift_left : ℕ → ℕ → ℕ
shift_left n k = (n * 2 ^ k) % 2 ^ 32

pub get_permissions : ℕ → ℕ → ℕ → ℕ → ℕ
unfolding shift_left
get_permissions process user group others =
    let perm₁ = shift_left others perm_others in
    let perm₂ = bit_or perm₁ (shift_left group perm_group) in
    let perm₃ = bit_or perm₂ (shift_left user perm_user) in
    bit_or perm₃ (shift_left process perm_process)
