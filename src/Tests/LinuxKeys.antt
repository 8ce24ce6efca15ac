-- ===== src/Tests/LinuxKeys.antt =====
-- A kernel whose ring has room for one key, "x", with the serial 7.
use Prim.Native.Nat.{◌/◌, ◌%◌, ◌^◌}
use keyring.Prelude.{
  ◌+◌, ◌<◌, first_bytes-length, ℕ, ◌≡◌, refl, Bytes, codes, Option, none, some, is_some, not, ◌&&◌,
  [], ◌∷◌, ◌++◌, length, arith, contains, ◌==◌, list_eq, nat_eq, if◌then◌else◌,
}
use keyring.Errors.{Error, errno, sentinel, err_key_not_found}
use keyring.Exec.{ok, err, found}
use keyring.Api.{Item, plain_item}
use keyring.Contract.{accepted}
use keyring.KeyCtl.{KeyctlKeyring, get, set, remove, read}
use keyring.KeyCtl.Permissions.{
  get_permissions, perm_all, perm_view, perm_search, perm_others, perm_group, perm_user,
  perm_process,
}
use keyring.KeyCtl.Permissions.Bounds.{get_permissions_bounds}
use keyring.KeyCtl.Description.{described, field_of}
use keyring.KeyCtl.Syscalls.{Kernel, Serial, int32}
use keyring.KeyCtl.Reading.{Reads, read_twice}
use keyring.KeyCtl.Ring.{HoldsKeys, searched, given, view, get-set-remove}
use keyring.KeyCtl.Moving.{Answers, IsCareful, recorded, set-IsCareful}
use keyring.KeyCtl.Describing.{field_of-described}

abbrev Room : Type 0
Room = Option Bytes

abbrev content_under : Bytes → Room → Bytes → Option (Serial × Bytes)
content_under x none d = none
content_under x (some p) d = if d == x then some (7, p) else none

abbrev content : Room → Bytes → Option (Serial × Bytes)
content = content_under (codes "x")

abbrev refused : Item → Option Error
refused i = if i.key == codes "x" then none else some (errno 122)

abbrev payload : Room → Bytes
payload none = []
payload (some p) = p

abbrev kernel : Kernel Room
kernel = record {
  thread_keyring = 1;
  process_keyring = 2;
  session_keyring = 3;
  user_keyring = 4;
  user_session_keyring = 5;
  add_key = λ t d p r w. (
    given (if d == codes "x" then none else some (errno 122)) 7,
    if d == codes "x" then some p else w,
  );
  keyctl_search = λ r t d w. (searched (content w d), w);
  keyctl_read = λ s n w. (ok (length (payload w), payload w), w);
  keyctl_describe = λ s w. (ok (codes "user;0;0;3f010000;x"), w);
  get_keyring_id = λ s w. (ok s, w);
  link = λ s r w. (ok tt, w);
  unlink = λ s r w. (ok tt, none);
  setperm = λ s p w. (ok tt, w);
}

abbrev ring : KeyctlKeyring
ring = record { ring = 4; perm = 0 }

room-Reads :
    (w : Room) (d p : Bytes) (s : Serial) (size : ℕ)
    → content w d ≡ some (s, p)
    → Reads kernel s p size w
room-Reads none d p s size h = absurd (ground arith)
room-Reads (some q) d p s size h =
    let same : q ≡ p = ground arith in
    record { buffer = q; result = ground arith; fills = λ e. ground (arith, first_bytes-length p) }

room_unlinked :
    (x : Bytes) (w : Room) (d p : Bytes) (s : Serial) (j : Bytes)
    → content_under x w d ≡ some (s, p)
    → none ≡ (if d == j then none else content_under x w j)
room_unlinked x none d p s j h = absurd (ground arith)
room_unlinked x (some q) d p s j h = ground arith

room_serial : (w : Room) (d p : Bytes) (s : Serial) → content w d ≡ some (s, p) → int32 s ≡ s
room_serial none d p s h = absurd (ground arith)
room_serial (some q) d p s h = let same : 7 ≡ s = ground arith in rw (← same) refl

room_added :
    (x : Bytes) (w : Room) (i : Item) (j : Bytes)
    → content_under x (if i.key == x then some i.content else w) j ≡ (
        if not (is_some (if i.key == x then none else some (errno 122))) && i.key == j
        then some (7, i.content)
        else content_under x w j)
room_added x none i j = ground arith
room_added x (some q) i j = ground arith

room-HoldsKeys : (w : Room) → HoldsKeys kernel 4 content refused w
room-HoldsKeys w = record {
  search_result = λ d. refl;
  search_content = λ d j. refl;
  serial_fits = λ d p s h. room_serial w d p s h;
  reads = λ d p s size h. room-Reads w d p s size h;
  read_content = λ s size j. refl;
  added = λ i. 7;
  add_result = λ i. refl;
  add_content = λ i j. room_added (codes "x") w i j;
  unlink_result = λ d p s h. refl;
  unlink_content = λ d p s j h. room_unlinked (codes "x") w d p s j h;
}

abbrev native : ℕ → ℕ → ℕ → ℕ → Serial
native a b c d = a

abbrev x_item : Item
x_item = plain_item (codes "x") (1 ∷ 2 ∷ [])

abbrev start : Room
start = some (9 ∷ [])

abbrev sees : Room → Bytes → Option Item
sees = view kernel native 0 ring content refused room-HoldsKeys

get-set-remove_example :
    ((get kernel 2 native ring (codes "x") start).0 ≡ found (sees start (codes "x")))
    × ((set kernel 2 native ring x_item start).0 ≡ accepted (refused x_item))
    × (sees (set kernel 2 native ring x_item start).1 (codes "x") ≡ (
        if not (is_some (refused x_item)) && codes "x" == codes "x"
        then some (plain_item (codes "x") (1 ∷ 2 ∷ []))
        else sees start (codes "x")))
    × ((remove kernel 2 native ring (codes "x") start).0
        ≡ (if is_some (sees start (codes "x")) then ok tt else err (sentinel err_key_not_found)))
    × (sees (remove kernel 2 native ring (codes "x") start).1 (codes "x")
        ≡ (if codes "x" == codes "x" then none else sees start (codes "x")))
get-set-remove_example =
    get-set-remove kernel native 0 ring content refused room-HoldsKeys x_item (codes "x")
      (codes "x") start refl

read_twice_example : (read kernel 2 7 start).0 ≡ ok (9 ∷ [])
unfolding list_eq nat_eq
read_twice_example =
    read_twice kernel 0 7 (9 ∷ []) start (room-Reads start (codes "x") (9 ∷ []) 7 0 refl)
      (room-Reads start (codes "x") (9 ∷ []) 7 1 refl)

abbrev answers : Answers
answers = record {
  adds = λ h t d p r. ok 11;
  perms = λ h s p. ok tt;
  links = λ h s r. ok tt;
  unlinks = λ h s r. err (errno 13);
  searches = λ h r t d. ok 11;
  reads = λ h s n. ok (0, []);
  describes = λ h s. ok [];
  ring_ids = λ h s. ok s;
  spec = λ n. n;
}

abbrev guarded_ring : KeyctlKeyring
guarded_ring = record { ring = 4; perm = 63 }

set-IsCareful_example : IsCareful 4 63 (set (recorded answers) 2 native guarded_ring x_item []).1
unfolding recorded
set-IsCareful_example =
    set-IsCareful answers guarded_ring 2 native x_item [] (λ h. omega (arith, h))
      (λ h. omega (arith, h)) tt

field_of-described_example :
    field_of
      (codes "description")
      (described (codes "user;0;0;3f010000;a" ++ (codes ";" ++ codes "b")))
    ≡ codes "b"
unfolding contains list_eq nat_eq
field_of-described_example = field_of-described (codes "user;0;0;3f010000;a") (codes "b") refl

-- All rights for the process, some for the user and the group, none for others.
get_permissions_bounds_example :
    let perm = get_permissions perm_all (perm_view + perm_search) perm_view 0 in
    (perm / 2 ^ perm_others % 2 ^ 8 ≡ 0)
    × (perm / 2 ^ perm_group % 2 ^ 8 ≡ perm_view)
    × (perm / 2 ^ perm_user % 2 ^ 8 ≡ perm_view + perm_search)
    × (perm / 2 ^ perm_process % 2 ^ 8 ≡ perm_all)
    × (perm < 2 ^ 32)
get_permissions_bounds_example =
    get_permissions_bounds perm_all (perm_view + perm_search) perm_view 0 (omega arith)
      (omega arith) (omega arith) (omega arith)
