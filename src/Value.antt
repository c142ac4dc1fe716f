-- ===== src/Value.antt =====
-- Python values as `json.loads` builds them, and the dict and list operations that the services
-- apply to claims, credentials and replies. Integers are `num n` and `neg n`, the latter for
-- -(n + 1); floats do not occur in what the services read.
use agent_identity_demos.Prelude.{
  ℕ, zero, suc, String, ◌≡◌, refl, Bool, true, false, ◌&&◌, List, [], ◌∷◌, Option, none, some,
  arith, ◌==◌, string_eq, if◌then◌else◌,
}
use agent_identity_demos.Prelude.Text.{is_empty}

mutual
  pub data Value : Type 0 where
    null : Value
    bool : Bool → Value
    num neg : ℕ → Value
    str : String → Value
    obj : Fields → Value
    arr : Items → Value

  pub data Fields : Type 0 where
    end : Fields
    field : String → Value → Fields → Fields

  pub data Items : Type 0 where
    nil : Items
    cons : Value → Items → Items

-- `bool(v)`
abbrev pub truthy : Value → Bool
truthy null = false
truthy (bool b) = b
truthy (num zero) = false
truthy (num (suc n)) = true
truthy (neg n) = true
truthy (str s) = if is_empty s then false else true
truthy (arr nil) = false
truthy (arr (cons v vs)) = true
truthy (obj end) = false
truthy (obj (field k v fs)) = true

-- `a or b`
abbrev pub or_value : Value → Value → Value
or_value a b = if truthy a then a else b

-- `d.get(k, default)`
unfoldable pub get_default : String → Value → Fields → Value
get_default k d end = d
get_default k d (field j v fs) = if k == j then v else get_default k d fs

-- `d.get(k)`
abbrev pub get : String → Fields → Value
get k fs = get_default k null fs

-- `d[k]`, where a missing key is a `KeyError`.
unfoldable pub item : String → Fields → Option Value
item k end = none
item k (field j v fs) = if k == j then some v else item k fs

-- `d[k] = v`
unfoldable pub set_item : String → Value → Fields → Fields
set_item k v end = field k v end
set_item k v (field j u fs) = if k == j then field k v fs else field j u (set_item k v fs)

pub get_default-set_item :
    (k j : String) (d v : Value) (fs : Fields)
    → get_default j d (set_item k v fs) ≡ (if j == k then v else get_default j d fs)
unfolding get_default set_item
get_default-set_item k j d v end = refl
get_default-set_item k j d v (field i u fs) = ground (arith, get_default-set_item k j d v fs)

-- `v == s` for a text `s`.
abbrev pub eq_str : Value → String → Bool
eq_str (str t) s = t == s
eq_str _ s = false

-- A list of texts as a value.
unfoldable pub strs : List String → Items
strs [] = nil
strs (s ∷ ss) = cons (str s) (strs ss)

-- `items == ss` for a list of texts.
unfoldable pub items_eq_strs : Items → List String → Bool
items_eq_strs nil [] = true
items_eq_strs nil (s ∷ ss) = false
items_eq_strs (cons v vs) [] = false
items_eq_strs (cons v vs) (s ∷ ss) = eq_str v s && items_eq_strs vs ss

-- `v == ss` for a list of texts.
abbrev pub eq_strs : Value → List String → Bool
eq_strs (arr vs) ss = items_eq_strs vs ss
eq_strs _ ss = false

-- `s in items`
unfoldable pub items_contain : Items → String → Bool
items_contain nil s = false
items_contain (cons v vs) s = if eq_str v s then true else items_contain vs s

-- `None` or a text, as the value that a header has in a dict.
abbrev pub opt_str : Option String → Value
opt_str none = null
opt_str (some s) = str s

-- What `==` on a list of texts decides.
pub items_eq_strs→eq : (vs : Items) (ss : List String) → items_eq_strs vs ss ≡ true → vs ≡ strs ss
unfolding items_eq_strs strs
items_eq_strs→eq nil [] h = refl
items_eq_strs→eq nil (s ∷ ss) h = ground arith
items_eq_strs→eq (cons v vs) [] h = ground arith
items_eq_strs→eq (cons v vs) (s ∷ ss) h = ground (arith, items_eq_strs→eq vs ss)

pub eq_strs→eq : (v : Value) (ss : List String) → eq_strs v ss ≡ true → v ≡ arr (strs ss)
eq_strs→eq (arr vs) ss h = ground (arith, items_eq_strs→eq vs ss)
eq_strs→eq _ ss h = ground arith

pub eq_str→eq : (v : Value) (s : String) → eq_str v s ≡ true → v ≡ str s
eq_str→eq (str t) s h = ground arith
eq_str→eq _ s h = ground arith

-- A text equals itself under `==`, and so does a list of texts.
pub string_eq_refl : (s : String) → (s == s) ≡ true
string_eq_refl s = ground arith

pub items_eq_strs-strs : (ss : List String) → items_eq_strs (strs ss) ss ≡ true
unfolding items_eq_strs strs
items_eq_strs-strs [] = refl
items_eq_strs-strs (s ∷ ss) = rw (string_eq_refl s, items_eq_strs-strs ss)
