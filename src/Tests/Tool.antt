-- ===== src/Tests/Tool.antt =====
-- The command line tool in a build whose one backend keeps items in memory.
use keyring.Prelude.{
  ◌≡◌, refl, codes, none, some, [], ◌∷◌, contains, ◌==◌, list_eq, nat_eq, if◌then◌else◌,
}
use keyring.Exec.{ok}
use keyring.Api.{Keyring, file_backend}
use keyring.Open.{Supported, available_of, available_backends, open_loop, open_keyring}
use keyring.Array.{ArrayKeyring, array_ring}
use keyring.Array.Laws.{view, array_ring-MeetsContract}
use keyring.CommandLine.{Flags, config_of, default_flags, has_backend, allowed_backends, main}
use keyring.CommandLine.SetGet.{Opens, getting, setting, main-setting-getting}

abbrev supports : Supported ArrayKeyring (Keyring ArrayKeyring)
supports b = if b == file_backend then some (λ cfg k. (ok array_ring, k)) else none

abbrev flags : Flags
flags = record default_flags { backend = codes "file" }

abbrev nothing : ArrayKeyring
nothing = record { items = none }

abbrev get_flags : Flags
get_flags = getting flags

abbrev set_flags : Flags
set_flags = setting flags (codes "secret")

setting-Opens :
    (k : ArrayKeyring)
    → Opens supports array_ring
        (λ k. Unit {0})
        view
        (λ i. i)
        (λ i. none)
        (ok tt)
        (λ k good. array_ring-MeetsContract k)
        set_flags
        (file_backend ∷ [])
        k
unfolding config_of open_keyring open_loop list_eq nat_eq
setting-Opens k = record {
  opened = k;
  open_result = refl;
  open_view = λ j. refl;
  open_good = λ good. good;
}

getting-Opens :
    (k : ArrayKeyring)
    → Opens supports array_ring
        (λ k. Unit {0})
        view
        (λ i. i)
        (λ i. none)
        (ok tt)
        (λ k good. array_ring-MeetsContract k)
        get_flags
        (file_backend ∷ [])
        k
unfolding config_of open_keyring open_loop list_eq nat_eq
getting-Opens k = record {
  opened = k;
  open_result = refl;
  open_view = λ j. refl;
  open_good = λ good. good;
}

main-setting-getting_example :
    ((main supports set_flags nothing).0 ≡ ok [])
    × ((main supports get_flags (main supports set_flags nothing).1).0 ≡ ok (codes "secret"))
unfolding allowed_backends has_backend available_backends available_of contains list_eq nat_eq
main-setting-getting_example =
    main-setting-getting supports array_ring (λ k. Unit {0}) view (λ i. i) (λ i. none) (ok tt)
      (λ k good. array_ring-MeetsContract k) flags (codes "secret") (file_backend ∷ []) nothing tt
      refl refl refl refl (setting-Opens nothing) getting-Opens
