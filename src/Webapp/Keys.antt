-- ===== src/Webapp/Keys.antt =====
-- `vault_keys` of cross-domain-id-jag-vc/webapp/app.py: what Vault tells of its keys.
use agent_identity_demos.Prelude.{suc, true, nat_eq, false, ℕ, String, ◌<>◌, none, [], ◌∷◌}
use agent_identity_demos.Prelude.Text.{take_text}
use agent_identity_demos.Value.{
  Value, Items, Fields, bool, str, num, arr, obj, nil, cons, end, field, get, get_default,
}
use agent_identity_demos.Effects.{
  type_error, Response, Result, ok, err, M, asks, pure, lift, attempt, ◌>>=◌, ◌>>◌, Request,
  http_get, no_body, request, json, as_dict, exn_text,
}
use agent_identity_demos.Effects.Values.{text_at, list_of}
use agent_identity_demos.Client.Vault.{VaultConfig, raise_for_status}

abbrev pub transit_request : VaultConfig → String → Request
transit_request cfg path = record {
  method = http_get;
  url = cfg.vault_addr <> ("/v1/transit/" <> path);
  headers = ("X-Vault-Token", cfg.vault_token) ∷ [];
  auth = none;
  body = no_body;
}

unfoldable pub count : Items → ℕ
count nil = 0
count (cons v vs) = suc (count vs)

-- `len(v)`
abbrev size : Result Items → Result ℕ
size (ok vs) = ok (count vs)
size (err e) = err (type_error "object has no len()")

-- A dict reached through `v.get(k, {})`, where `v` is any value.
abbrev pub data_of : Value → M Fields
data_of reply = do fields ← as_dict reply; as_dict (get_default "data" (obj end) fields)

key_names : VaultConfig → M Value
key_names cfg = do
  r ← request (transit_request cfg "keys?list=true")
  _ ← raise_for_status r
  reply ← json r
  d ← data_of reply
  pure (get_default "keys" (arr nil) d)

-- What Vault tells of one key, none of it secret.
abbrev pub key_entry : Value → Fields → M Value
key_entry name d = do
  let versions = get_default "keys" (obj end) d
  latest ← text_at (get_default "latest_version" (str "") d)
  version_count ← lift (size (list_of versions))
  by_version ← as_dict versions
  version ← as_dict (get_default latest (obj end) by_version)
  pure (
      obj (
        field "name" name (
          field "type" (get "type" d) (
            field "latest_version" (get "latest_version" d) (
              field "version_count" (num version_count) (
                field "created" (get "creation_time" version) (
                  field "exportable" (get "exportable" d) (
                    field "deletion_allowed" (get "deletion_allowed" d)
                      (field "supports_signing" (get "supports_signing" d) end)))))))))

unfoldable pub read_key : VaultConfig → String → M Response
read_key cfg name = do
  r ← request (transit_request cfg ("keys/" <> name))
  raise_for_status r >> pure r

-- A key that Vault does not show is left out, and an answer of another shape raises.
abbrev pub key_entries : Value → Result Response → M Items
key_entries name (err e) = pure nil
key_entries name (ok r) = do
  reply ← json r
  d ← data_of reply
  entry ← key_entry name d
  pure (cons entry nil)

abbrev pub join_items : Items → Items → Items
join_items nil ws = ws
join_items (cons v vs) ws = cons v (join_items vs ws)

unfoldable pub all_keys : VaultConfig → Items → M Items
unfolding count read_key
all_keys cfg nil = pure nil
all_keys cfg (cons name names) = do
  text ← text_at name
  answered ← attempt (read_key cfg text)
  first ← key_entries name answered
  rest ← all_keys cfg names
  pure (join_items first rest)

abbrev shown_keys : VaultConfig → Result Value → M Value
shown_keys cfg (err e) = asks (λ w. obj (
    field "reachable" (bool false) (
      field "vault_addr" (str cfg.vault_addr)
        (field "error" (str (take_text 200 (exn_text w e))) (field "keys" (arr nil) end)))))
shown_keys cfg (ok names) = do
  items ← lift (list_of names)
  keys ← all_keys cfg items
  pure (
      obj (
        field "reachable" (bool true)
          (field "vault_addr" (str cfg.vault_addr) (field "keys" (arr keys) end))))

unfoldable pub vault_keys : VaultConfig → M Value
unfolding key_names all_keys
vault_keys cfg = do names ← attempt (key_names cfg); shown_keys cfg names
