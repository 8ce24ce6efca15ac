-- ===== src/Tests/ConnectServer.antt =====
-- A 1Password Connect server in memory, with an item of the keyring and one of the user.
use keyring.Prelude.{
  ◌≡◌, ◌<◌, refl, inl, inr, Bytes, codes, true, false, Option, none, some, List, [], ◌∷◌, ◌++◌, map,
  length, length-append, contains, arith, Bool-cases, ◌==◌, list_eq, nat_eq,
}
use keyring.Errors.{message}
use keyring.Exec.{Result, ok, err}
use keyring.Api.{plain_item}
use keyring.WinHello.Window.{Ask}
use keyring.OnePassword.Base.{title_from_key}
use keyring.OnePassword.Connect.{
  OpConnectKeyring, is_listed, with_item, get, set, initialize_op_connect_client,
}
use keyring.OnePassword.Sdk.{OpItem}
use keyring.OnePassword.Items.{is_item_field}
use keyring.OnePassword.Connect.Vault.{hydrated}
use keyring.OnePassword.Connect.Sdk.{ConnectItem, ConnectClient, ConnectSdk}
use keyring.OnePassword.Connect.Server.{
  overview, titled, find, ids, AreDistinct, replaced, without, numbered, IsServer,
}
use keyring.OnePassword.Connect.SetGet.{connect_get-set}
use keyring.Tests.ItemTexts.{item_texts}

abbrev Vault : Type 0
Vault = List ConnectItem

abbrev located : Option ConnectItem → Result ConnectItem
located none = err (message "404")
located (some i) = ok i

-- An ID that is longer than all others.
long_id : List Bytes → Bytes
long_id [] = 0 ∷ []
long_id (id ∷ rest) = id ++ long_id rest

length-long_id : (l : List Bytes) → 0 < length (long_id l)
unfolding long_id
length-long_id [] = omega arith
length-long_id (id ∷ rest) = omega (arith, length-append id (long_id rest), length-long_id rest)

longer : (l : List Bytes) (id : Bytes) → contains l id ≡ true → length id < length (long_id l)
unfolding long_id contains
longer [] id h = cc
longer (x ∷ rest) id h =
    ground (arith, length-append x (long_id rest), length-long_id rest, longer rest id)

long_id_new : (l : List Bytes) → contains l (long_id l) ≡ false
long_id_new l = elim (Bool-cases (contains l (long_id l))) [
  | inl old ↦ absurd (omega (arith, longer l (long_id l) old))
  | inr new ↦ new
]

abbrev client : ConnectClient Vault
client = record {
  create_item = λ i v w. (ok tt, w ++ numbered (long_id (ids w)) (λ f. codes "f") i ∷ []);
  delete_item_by_id = λ id v w. (ok tt, without id w);
  get_item_by_uuid = λ id v w. (located (find id w), w);
  get_items = λ v w. (ok (map overview w), w);
  get_items_by_title = λ t v w. (ok (map overview (titled t w)), w);
  update_item = λ i v w. (ok tt, replaced i w);
}

abbrev sdk : ConnectSdk Vault
sdk = record {
  api_credential = codes "API_CREDENTIAL";
  field_type_concealed = codes "CONCEALED";
  op_standard_item_category = codes "ApiCredentials";
  op_standard_item_field_type = codes "Concealed";
  new_client = λ host token. client;
  now = λ w. (7, w);
}

abbrev k : OpConnectKeyring Vault
k = record {
  base = record {
    vault_id = codes "vault";
    item_title_prefix = codes "app";
    item_tag = codes "keyring";
    item_field_title = codes "keyring";
    token_envs = [];
    token_func = none;
  };
  host = codes "localhost";
  client = some client;
}

abbrev getenv : Bytes → Ask Vault Bytes
getenv name w = ([], w)

abbrev same : Vault → Vault
same w = w

server : (w : Vault) → IsServer client (codes "vault") same w
server w = record {
  by_title = λ t. refl;
  by_title_vault = λ t. refl;
  by_id = λ id i h. rw h refl;
  by_id_vault = λ id. refl;
  create_result = λ i. refl;
  new_id = λ i. long_id (ids w);
  new_field_id = λ f. codes "f";
  is_new = λ i. long_id_new (ids w);
  create_vault = λ i. refl;
  update_result = λ i j h. refl;
  update_vault = λ i j h. refl;
  delete_result = λ id j h. refl;
  delete_vault = λ id j h. refl;
}

abbrev item : Bytes → Bytes → Bytes → List Bytes → ConnectItem
item id title value tags = record {
  id = id;
  title = title;
  category = codes "API_CREDENTIAL";
  vault_id = codes "vault";
  tags = tags;
  fields =
      record {
        id = codes "f";
        field_type = codes "CONCEALED";
        label = codes "keyring";
        value = value;
      }
      ∷ [];
  updated_at = 0;
}

-- The second item has the title, but not the tag.
abbrev stored : Vault
stored =
    item (codes "1") (codes "app: x") (b'{' ∷ 5 ∷ []) (codes "keyring" ∷ [])
    ∷ item (codes "2") (codes "app: x") (b'{' ∷ 6 ∷ []) []
    ∷ []

abbrev found : OpItem
found = record {
  id = codes "1";
  title = codes "app: x";
  category = codes "ApiCredentials";
  tags = codes "keyring" ∷ [];
  fields =
      record {
        id = codes "f";
        title = codes "keyring";
        field_type = codes "Concealed";
        value = b'{' ∷ 5 ∷ [];
      }
      ∷ [];
  updated_at = 0;
}

abbrev after : Vault
after = (set getenv sdk item_texts k (plain_item (codes "x") (8 ∷ [])) stored).1

connect_get-set_example :
    ((set getenv sdk item_texts k (plain_item (codes "x") (8 ∷ [])) stored).0 ≡ ok tt)
    × ((get getenv sdk item_texts k (codes "x") after).0 ≡ ok (plain_item [] (8 ∷ [])))
    × ((j : Bytes)
        → (codes "x" == j) ≡ false
        → (get getenv sdk item_texts k j after).0 ≡ (get getenv sdk item_texts k j stored).0)
    × AreDistinct after
unfolding initialize_op_connect_client titled ids contains list_eq nat_eq title_from_key hydrated
    is_listed with_item is_item_field
connect_get-set_example =
    connect_get-set getenv sdk item_texts k client same server (λ w. (refl, refl)) (λ w. refl)
      (plain_item (codes "x") (8 ∷ [])) (plain_item [] (8 ∷ [])) stored (b'{' ∷ 8 ∷ [])
      (refl, (refl, tt)) (inr (found, refl)) refl refl
