-- ===== src/Tests/Vault.antt =====
-- A vault with one item of the keyring, which also has a field of another kind.
use keyring.Prelude.{
  zero, suc, none, Bytes, length, ◌≤◌, List, ℕ, ◌≡◌, refl, ◌↔◌, codes, [], ◌∷◌, contains, list_eq,
  nat_eq,
}
use keyring.Errors.{message}
use keyring.Exec.{Exec, ok, err}
use keyring.Api.{ItemCodec, plain_item}
use keyring.OnePassword.Sdk.{OpField, OpItem, Client}
use keyring.OnePassword.Base.{OpBaseKeyring, title_from_key}
use keyring.OnePassword.Standard.{op_item, op_items, get, keys, with_title}
use keyring.OnePassword.Standard.Listing.{listed_keys, keys_iff}
use keyring.OnePassword.Standard.Fields.{IsSingle, op_item-IsSingle}

abbrev base : OpBaseKeyring ℕ
base = record {
  vault_id = codes "vault";
  item_title_prefix = codes "app";
  item_tag = codes "keyring";
  item_field_title = codes "keyring";
  token_envs = [];
  token_func = none;
}

abbrev secret : OpField
secret = record { id = []; title = codes "keyring"; field_type = codes "c"; value = 5 ∷ [] }

abbrev stored : OpItem
stored = record {
  id = codes "1";
  title = codes "app: x";
  category = codes "api";
  tags = codes "keyring" ∷ [];
  fields =
      record { id = []; title = codes "user"; field_type = codes "t"; value = [] } ∷ secret ∷ [];
  updated_at = 0;
}

abbrev client : Client ℕ
client = record {
  item_state_active = codes "active";
  item_category_api_credentials = codes "api";
  item_field_type_concealed = codes "c";
  create = λ p w. (ok tt, w);
  delete = λ v i w. (ok tt, w);
  get = λ v i w. (ok stored, w);
  list = λ v w. (
    ok (
        record {
          id = codes "1";
          tags = codes "keyring" ∷ [];
          state = codes "active";
          category = codes "api";
        }
        ∷ []),
    w,
  );
  put = λ i w. (ok tt, w);
  now = λ w. (w, w);
}

abbrev json : ItemCodec
json = record { encode = λ i. ok i.content; decode = λ b. ok (plain_item (codes "x") b) }

abbrev got : OpItem
got = record stored { fields = secret ∷ [] }

holds_it : op_items client json base 0 ≡ (ok (got ∷ []), 0)
unfolding op_items contains list_eq nat_eq
holds_it = refl

finds_it : op_item client json base (codes "x") 0 ≡ (ok got, 0)
unfolding op_item op_items title_from_key contains list_eq nat_eq
finds_it = refl

op_item-IsSingle_example :
    (s : IsSingle client json base got) × (got.title ≡ title_from_key base (codes "x"))
    × (get client json base (codes "x") 0 ≡ (json.decode s.field.value, 0))
op_item-IsSingle_example = op_item-IsSingle client json base (codes "x") 0 0 got finds_it

keys_iff_example :
    (((ks : List Bytes) × ((keys client json base 0).0 ≡ ok ks))
      ↔ ((t : Bytes) → length (with_title client json base t (got ∷ [])) ≤ 1))
    × (((t : Bytes) → length (with_title client json base t (got ∷ [])) ≤ 1)
        → keys client json base 0 ≡ (ok (listed_keys client json base (got ∷ [])), 0))
keys_iff_example = keys_iff client json base 0 0 (got ∷ []) holds_it

-- A client can be made once, while the world is 0.
abbrev make_once : Exec ℕ (Client ℕ)
make_once zero = (ok client, 1)
make_once (suc n) = (err (message "no more clients"), suc n)
