-- ===== src/Effects/Values.antt =====
-- Python's operations on values that raise where the value has another type.
use agent_identity_demos.Prelude.{
  String, List, [], ◌∷◌, Bool, true, false, Option, none, some, ◌==◌, ◌≡◌, arith, string_eq,
  if◌then◌else◌,
}
use agent_identity_demos.Prelude.Text.{is_empty, includes, join, lower}
use agent_identity_demos.Value.{
  Value, Fields, Items, str, arr, obj, nil, cons, end, field, item, items_contain,
}
use agent_identity_demos.Effects.{
  attribute_error, type_error, key_error, Result, ok, err, World, M, asks, Response,
}

-- `str(v)`
abbrev pub text_of : World → Value → String
text_of w (str s) = s
text_of w v = w.repr v

-- `f"{v}"`
abbrev pub text_at : Value → M String
text_at v = asks (λ w. text_of w v)

-- `for item in v`, where each item is asked for its fields by `get`.
unfoldable pub items_of : Value → Result Items
items_of (arr vs) = ok vs
items_of (str s) = if is_empty s then ok nil else err (attribute_error "get")
items_of (obj end) = ok nil
items_of (obj (field k v fs)) = err (attribute_error "get")
items_of _ = err (type_error "not iterable")

-- `v[k]`
abbrev found_item : String → Option Value → Result Value
found_item k none = err (key_error k)
found_item k (some v) = ok v

unfoldable pub subscript : String → Value → Result Value
unfolding item
subscript k (obj fs) = found_item k (item k fs)
subscript k _ = err (type_error "not subscriptable")

-- A method of `str`, called on `v`.
abbrev pub as_text : Value → Result String
as_text (str s) = ok s
as_text _ = err (attribute_error "split")

has_key : String → Fields → Bool
has_key k end = false
has_key k (field j v fs) = if k == j then true else has_key k fs

-- `s in v`: an item of a list, a part of a text, or a key of a dict.
unfoldable pub value_contains : Value → String → Result Bool
unfolding items_contain includes has_key
value_contains (arr vs) s = ok (items_contain vs s)
value_contains (str t) s = ok (includes t s)
value_contains (obj fs) s = ok (has_key s fs)
value_contains _ s = err (type_error "not iterable")

chars : String → Items
chars String.[] = nil
chars (String.◌∷◌ c s) = cons (str (String.◌∷◌ c String.[])) (chars s)

keys : Fields → Items
keys end = nil
keys (field k v fs) = cons (str k) (keys fs)

-- `list(v)`
unfoldable pub list_of : Value → Result Items
unfolding chars keys
list_of (arr vs) = ok vs
list_of (str s) = ok (chars s)
list_of (obj fs) = ok (keys fs)
list_of _ = err (type_error "not iterable")

-- `a and b`, where `b` is not evaluated if `a` is false or raises.
abbrev pub and_then : Result Bool → Result Bool → Result Bool
and_then (ok true) r = r
and_then (ok false) r = ok false
and_then (err e) r = err e

pub as_text→eq : (v : Value) (s : String) → as_text v ≡ ok s → v ≡ str s
as_text→eq (str t) s h = ground arith
as_text→eq _ s h = ground arith

header_values : String → List (String × String) → List String
header_values name [] = []
header_values name ((k, v) ∷ headers) =
    let rest = header_values name headers in if lower k == name then v ∷ rest else rest

joined_or : String → List String → String
joined_or d [] = d
joined_or d (v ∷ vs) = join ", " (v ∷ vs)

-- `r.headers.get(name, d)` of httpx, for a name in lower case: names do not differ by case, and the
-- values of one name are joined.
unfoldable pub header_or : String → String → Response → String
unfolding header_values joined_or
header_or name d r = joined_or d (header_values name r.headers)
