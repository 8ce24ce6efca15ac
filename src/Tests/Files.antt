-- ===== src/Tests/Files.antt =====
-- A file system in memory, with tokens that put one byte in front of a payload.
use keyring.Prelude.{
  ◌≡◌, refl, Bytes, codes, true, false, Option, none, some, [], ◌∷◌, ◌++◌, list_eq, nat_eq,
  contains, inl, arith, append_cancel_left,
}
use keyring.Errors.{Error, failure, message, sentinel, err_key_not_found}
use keyring.Exec.{Result, ok, err}
use keyring.Exec.Object.{Object}
use keyring.Api.{Item, plain_item}
use keyring.Dict.{lookup, insert, erase, lookup-insert, lookup-erase}
use keyring.File.{FileKeyring, filename_escape, get, set, remove}
use keyring.File.System.{Codecs}
use keyring.File.System.{System as FileSystem}
use keyring.File.Assumed.{IsFileSystem, read_bytes}
use keyring.File.RoundTrip.{Sound, k, root, files_get-set}
use keyring.Tests.Memory.{Memory}
use keyring.Tests.ItemTexts.{item_texts, text_of, kept_of, item_texts-WritesItems}

abbrev absent : Error
absent = failure 2

abbrev pub system : FileSystem Memory
system = record {
  user_home_dir = λ w. (ok (codes "/home/me"), w);
  stat = λ p w. ((some (record { is_dir = true; mod_time = 0 }), none), w);
  mkdir_all = λ p perm w. (ok tt, w);
  read_file = λ p w. (read_bytes absent (lookup p w), w);
  write_file = λ p b perm w. (ok tt, insert p b w);
  remove_file = λ p w. (ok tt, erase p w);
  read_dir = λ p w. (([], none), w);
  now_text = λ w. (codes "now", w);
  is_not_exist = λ e. true;
  on_windows = false;
  separator = b'/';
  quoted = λ s. s;
  join = λ p n. p ++ (b'/' ∷ n);
}

opened : Bytes → Result Bytes
opened [] = err (message "invalid token")
opened (b ∷ token) = ok token

abbrev codecs : Codecs Memory
codecs = record {
  percent_encode = λ s chars. s;
  percent_decode = λ s. s;
  jose_encrypt = λ payload password header w. (ok (1 ∷ payload), w);
  jose_decode = λ token password. opened token;
}

abbrev content : Memory → Bytes → Option Bytes
content w p = lookup p w

abbrev dir : Bytes
dir = codes "~/keys"

abbrev home : Bytes
home = codes "/home/me"

abbrev password : Bytes
password = codes "hunter2"

abbrev root_of : Bytes
root_of = root system codecs item_texts dir home password absent content

files : (w : Memory) → IsFileSystem system codecs home root_of password absent content w
unfolding opened
files w = record {
  home_result = refl;
  root_info = record { is_dir = true; mod_time = 0 };
  root_result = refl;
  read_result = λ p. refl;
  written = λ p b. insert p b w;
  write_result = λ p b. refl;
  write_content = λ p b q. lookup-insert p q b w;
  removed = λ p. erase p w;
  remove_result = λ p b h. refl;
  remove_content = λ p q. lookup-erase p q w;
  created = codes "now";
  later = w;
  now_result = refl;
  now_content = λ q. refl;
  token = λ payload header. 1 ∷ payload;
  drawn = λ payload header. w;
  encrypt_result = λ payload header. refl;
  encrypt_content = λ payload header q. refl;
  decode_token = λ payload header. refl;
}

sound : Sound system codecs item_texts dir home password absent content text_of kept_of
sound = record {
  dir_given = refl;
  password_given = refl;
  absent_missing = refl;
  decode_encode = λ s. refl;
  join_apart = λ m n hm hn h. append_cancel_left (b'/' ∷ []) m n (append_cancel_left root_of _ _ h);
  writes = item_texts-WritesItems;
  files = files;
}

abbrev x : Item
x = plain_item (codes "x") (5 ∷ [])

abbrev locked : Object Bytes Memory
locked = record { fields = []; world = [] }

abbrev keyring_of : FileKeyring Memory
keyring_of = k system codecs item_texts dir home password absent content

files_get-set_example :
    ((set system codecs item_texts keyring_of x locked).0 ≡ ok tt)
    × ((get system codecs item_texts keyring_of
          (codes "x")
          (set system codecs item_texts keyring_of x locked).1).0
        ≡ ok (kept_of x))
    × ((get system codecs item_texts keyring_of
          (codes "y")
          (set system codecs item_texts keyring_of x locked).1).0
        ≡ (get system codecs item_texts keyring_of (codes "y") locked).0)
    × ((get system codecs item_texts keyring_of
          (codes "x")
          (remove system codecs item_texts keyring_of
            (codes "x")
            (set system codecs item_texts keyring_of x locked).1).1).0
        ≡ err (sentinel err_key_not_found))
unfolding filename_escape contains list_eq nat_eq
files_get-set_example =
    files_get-set system codecs item_texts dir home password absent content text_of kept_of sound x
      (codes "y") locked (inl refl) refl refl (λ e. ground arith)
