-- ===== src/Webapp/Shown.antt =====
-- Which keys `vault_keys` of cross-domain-id-jag-vc/webapp/app.py lists, and what of each.
use agent_identity_demos.Prelude.{
  arith, String, ◌<>◌, ◌≡◌, refl, ◌∙◌, sym, ap, subst, Bool, true, false, ◌&&◌, ◌⊎◌, inl, inr, some,
  ◌∷◌, leb, ltb, Bool-cases, string_eq,
}
use agent_identity_demos.Value.{Value, Items, Fields, obj, nil, cons, end, get, get_default}
use agent_identity_demos.Effects.{
  outcome, dict_result, as_dict, Exn, foreign, Result, ok, err, Result-cases, World, History, sent,
  M, attempt, ◌>>=◌, request, require, Request, Response,
}
use agent_identity_demos.Effects.Values.{text_of}
use agent_identity_demos.Effects.Invert.{
  lift-ok, Returns, bind-ok, pure-ok, asks_bind-ok, lift_bind-ok, as_dict_bind-ok, json_bind-ok,
}
use agent_identity_demos.Effects.Quiet.{Quiet, Quiet-as_dict, Quiet-pure, quiet_rules}
use agent_identity_demos.Client.Vault.{VaultConfig, raise_for_status}
use agent_identity_demos.Webapp.Keys.{transit_request, read_key, key_entries, join_items, all_keys}

-- `r.raise_for_status()` does not raise.
abbrev pub success : Response → Bool
success r = leb 200 r.status_code && ltb r.status_code 300

abbrev pub key_request : VaultConfig → World → Value → Request
key_request cfg w name = transit_request cfg ("keys/" <> text_of w name)

-- Vault does not answer the question for a key, or answers it by an error.
abbrev pub Refused : World → History → Request → Type 0
Refused w h q =
    ((e : Exn) × (w.send h q ≡ err e))
    ⊎ ((r : Response) × (w.send h q ≡ ok r) × (success r ≡ false))

-- The entry has the name of the key and what Vault says of it.
abbrev pub Tells : World → History → Request → Value → Fields → Type 0
Tells w h q name entry =
    (r : Response) × (w.send h q ≡ ok r)
    × (success r ≡ true)
    × (fields : Fields) × (r.json ≡ some (obj fields))
    × (d : Fields) × (get_default "data" (obj end) fields ≡ obj d)
    × (get "name" entry ≡ name)
    × (get "type" entry ≡ get "type" d)
    × (get "latest_version" entry ≡ get "latest_version" d)
    × (get "exportable" entry ≡ get "exportable" d)
    × (get "deletion_allowed" entry ≡ get "deletion_allowed" d)
    × (get "supports_signing" entry ≡ get "supports_signing" d)

-- Vault is asked for one key after the other, and those that it shows are listed in their order.
pub data Lists (cfg : VaultConfig) (w : World) : History → Items → Items → Type 0 where
  over : {h : History} → Lists cfg w h nil nil
  hidden :
      {h : History} {name : Value} {names keys : Items}
      → Refused w h (key_request cfg w name)
      → Lists cfg w (sent (key_request cfg w name) ∷ h) names keys
      → Lists cfg w h (cons name names) keys
  shown :
      {h : History} {name : Value} {entry : Fields} {names keys : Items}
      → Tells w h (key_request cfg w name) name entry
      → Lists cfg w (sent (key_request cfg w name) ∷ h) names keys
      → Lists cfg w h (cons name names) (cons (obj entry) keys)

dict_result-ok : (v : Value) (d : Fields) → dict_result v ≡ ok d → v ≡ obj d
dict_result-ok (obj fs) d p = ground (arith, p)
dict_result-ok _ d p = absurd (ground (arith, p))

module _ {w : World} where
  as_dict-ok : {h h' : History} {d : Fields} (v : Value) → Returns (as_dict v) w h d h' → v ≡ obj d
  unfolding as_dict
  as_dict-ok {d = d} v p = dict_result-ok v d (lift-ok _ _ _ _ _ p)

  attempt-ok :
      {A : Type 0} (m : M A) (h h1 h2 : History) (x a : Result A)
      → m w h ≡ (x, h1)
      → Returns (attempt m) w h a h2
      → (a ≡ x) × (h2 ≡ h1)
  unfolding attempt
  attempt-ok m h h1 h2 x a q p =
      let same = subst (λ y. outcome y ≡ (ok a, h2)) q p.returns in
      (ground (arith, same), ground (arith, same))

  Quiet-history :
      {A : Type 0} (m : M A) (h h' : History) (a : A) → Quiet m w → Returns m w h a h' → h' ≡ h
  Quiet-history m h h' a q p = sym (ap (λ x. x.1) p.returns) ∙ q.quiet h

module _ (cfg : VaultConfig) (w : World) where
  read_key-Refused :
      (text : String) (h : History) (e : Exn)
      → w.send h (transit_request cfg ("keys/" <> text)) ≡ err e
      → read_key cfg text w h ≡ (err e, sent (transit_request cfg ("keys/" <> text)) ∷ h)
  unfolding read_key request ◌>>=◌
  read_key-Refused text h e p = rw p

  read_key-failed :
      (text : String) (h : History) (r : Response)
      → w.send h (transit_request cfg ("keys/" <> text)) ≡ ok r
      → success r ≡ false
      → read_key cfg text w h
        ≡ (err (foreign "HTTPStatusError"), sent (transit_request cfg ("keys/" <> text)) ∷ h)
  unfolding read_key request raise_for_status require ◌>>=◌
  read_key-failed text h r p bad = rw (p, bad)

  read_key-success :
      (text : String) (h : History) (r : Response)
      → w.send h (transit_request cfg ("keys/" <> text)) ≡ ok r
      → success r ≡ true
      → read_key cfg text w h ≡ (ok r, sent (transit_request cfg ("keys/" <> text)) ∷ h)
  unfolding read_key request raise_for_status require ◌>>=◌
  read_key-success text h r p good = rw (p, good)

  key_entries-Quiet :
      (name : Value) (answered : Result Response) → Quiet (key_entries name answered) w
  key_entries-Quiet name (err e) = Quiet-pure nil
  key_entries-Quiet name (ok r) = search quiet_rules depth 60

  data_of-ok :
      (fields d : Fields) (h h' : History)
      → Returns (as_dict (get_default "data" (obj end) fields)) w h d h'
      → (h' ≡ h) × (get_default "data" (obj end) fields ≡ obj d)
  data_of-ok fields d h h' p = (Quiet-history _ _ _ _ (Quiet-as_dict _) p, as_dict-ok _ p)

  key_entries-Tells :
      (name : Value) (r : Response) (h1 h2 h3 : History) (first : Items)
      → w.send h1 (key_request cfg w name) ≡ ok r
      → success r ≡ true
      → Returns (key_entries name (ok r)) w h2 first h3
      → (entry : Fields) × (first ≡ cons (obj entry) nil)
        × Tells w h1 (key_request cfg w name) name entry
  unfolding get_default string_eq
  key_entries-Tells name r h1 h2 h3 first sent_it good p =
      let (reply, is_json, p1) = json_bind-ok _ _ p in
      let (d, h4, in_data, p2) = bind-ok _ _ p1 in
      let (fields, is_dict, q1) = as_dict_bind-ok _ _ in_data in
      let (entry, h5, in_entry, p3) = bind-ok _ _ p2 in
      let (count, _, e1) = lift_bind-ok _ _ (asks_bind-ok _ _ in_entry) in
      let (versions, _, e2) = as_dict_bind-ok _ _ e1 in
      let (version, _, e3) = as_dict_bind-ok _ _ e2 in
      let (data_h, is_data) = data_of-ok fields d h2 h4 q1 in
      (
        _,
        pure-ok _ _ _ _ _ p3 ∙ ap (λ v. cons v nil) (pure-ok _ _ _ _ _ e3),
        (
          r,
          sent_it,
          good,
          fields,
          is_json ∙ ap some is_dict,
          d,
          is_data,
          refl,
          refl,
          refl,
          refl,
          refl,
          refl,
        ),
      )

  -- One key, and the rest of the list.
  module _ (name : Value) (names first rest keys : Items) (h h1 h2 : History)
      (answered : Result Response)
      (in_read : Returns (attempt (read_key cfg (text_of w name))) w h answered h1)
      (in_entries : Returns (key_entries name answered) w h1 first h2)
      (joined : keys ≡ join_items first rest) (others : Lists cfg w h2 names rest) where
    then_others :
        (x : Result Response)
        → read_key cfg (text_of w name) w h ≡ (x, sent (key_request cfg w name) ∷ h)
        → Returns (key_entries name x) w h1 first h2
          × Lists cfg w (sent (key_request cfg w name) ∷ h) names rest
    then_others x read =
        let (same, at) = attempt-ok _ _ _ _ _ _ read in_read in
        (
          subst (λ y. Returns (key_entries name y) w h1 first h2) same in_entries,
          subst (λ g. Lists cfg w g names rest)
              (Quiet-history _ _ _ _ (key_entries-Quiet name answered) in_entries ∙ at) others,
        )

    listed-hidden :
        (e : Exn)
        → read_key cfg (text_of w name) w h ≡ (err e, sent (key_request cfg w name) ∷ h)
        → Refused w h (key_request cfg w name)
        → Lists cfg w h (cons name names) keys
    listed-hidden e read refused =
        let (entries, next) = then_others (err e) read in
        subst (λ ks. Lists cfg w h (cons name names) ks)
          (sym (joined ∙ ap (λ f. join_items f rest) (pure-ok _ _ _ _ _ entries)))
          (hidden refused next)

    listed-shown :
        (r : Response)
        → w.send h (key_request cfg w name) ≡ ok r
        → success r ≡ true
        → Lists cfg w h (cons name names) keys
    listed-shown r sent_it good =
        let (entries, next) = then_others (ok r) (read_key-success _ h r sent_it good) in
        let (entry, one, tells) = key_entries-Tells name r h _ _ first sent_it good entries in
        subst (λ ks. Lists cfg w h (cons name names) ks)
          (sym (joined ∙ ap (λ f. join_items f rest) one)) (shown tells next)

    listed : Lists cfg w h (cons name names) keys
    listed = elim (Result-cases (w.send h (key_request cfg w name))) [
      | inr (e, p) ↦ listed-hidden e (read_key-Refused _ h e p) (inl (e, p))
      | inl (r, p) ↦ elim (Bool-cases (success r)) [
        | inl good ↦ listed-shown r p good
        | inr bad ↦ listed-hidden _ (read_key-failed _ h r p bad) (inr (r, p, bad))
      ]
    ]

  -- A list of keys that is answered is made so: Vault is asked for one named key after the other; a key
  -- for which it does not answer, or answers an error, is left out; every other one has an entry, in
  -- the order of the names, with its name and with the type, the latest version and the three flags
  -- that Vault has answered for it.
  pub all_keys-Lists :
      (names keys : Items) (h h' : History)
      → Returns (all_keys cfg names) w h keys h'
      → Lists cfg w h names keys
  unfolding all_keys
  all_keys-Lists nil keys h h' p =
      subst (λ ks. Lists cfg w h nil ks) (sym (pure-ok _ _ _ _ _ p)) over
  all_keys-Lists (cons name names) keys h h' p =
      let (answered, h1, in_read, p1) = bind-ok _ _ (asks_bind-ok _ _ p) in
      let (first, h2, in_entries, p2) = bind-ok _ _ p1 in
      let (rest, h3, in_rest, p3) = bind-ok _ _ p2 in
      listed name names first rest keys h h1 h2 answered in_read in_entries (pure-ok _ _ _ _ _ p3)
        (all_keys-Lists names rest h2 h3 in_rest)
