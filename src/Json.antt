-- ===== src/Json.antt =====
-- `json.dumps(v, separators=(",", ":"))`, which the credentials and the proofs of
-- cross-domain-id-jag-vc/agntcy_identity_client are signed over. Text outside printable ASCII is
-- escaped, as by default.
use Prim.Native.Char.{code}
use Prim.Native.String.{String}
use agent_identity_demos.Prelude.{
  ℕ, suc, ◌≡◌, refl, ◌+◌, ◌-◌, ◌/◌, ◌%◌, ◌<>◌, true, false, ◌&&◌, ltb, leb, ◌==◌, nat_eq,
  if◌then◌else◌,
}
use agent_identity_demos.Prelude.Text.{nth, decimal}
use agent_identity_demos.Value.{
  Value, Items, Fields, null, bool, num, neg, str, arr, obj, nil, cons, end, field,
}

hex_digit : ℕ → String → String
unfolding nth
hex_digit d rest = String.◌∷◌ (nth "0123456789abcdef" d "0") rest

-- `\uXXXX`
unicode_escape : ℕ → String → String
unfolding hex_digit
unicode_escape c rest =
    "\\u"
    <> hex_digit (c / 4096 % 16)
        (hex_digit (c / 256 % 16) (hex_digit (c / 16 % 16) (hex_digit (c % 16) rest)))

-- One character of a text; beyond the first plane, a pair of surrogates.
escape_char : ℕ → String → String → String
unfolding unicode_escape nat_eq
escape_char c raw rest =
    if c == b'"'
    then "\\\"" <> rest
    else if c == 92
    then "\\\\" <> rest
    else if c == 10
    then "\\n" <> rest
    else if c == 13
    then "\\r" <> rest
    else if c == 9
    then "\\t" <> rest
    else if c == 8
    then "\\b" <> rest
    else if c == 12
    then "\\f" <> rest
    else if leb 32 c && leb c 126
    then raw <> rest
    else if ltb c 65536
    then unicode_escape c rest
    else unicode_escape (55296 + (c - 65536) / 1024)
        (unicode_escape (56320 + (c - 65536) % 1024) rest)

unfoldable pub escape : String → String
unfolding escape_char
escape String.[] = "\""
escape (String.◌∷◌ c s) = escape_char (code c) (String.◌∷◌ c String.[]) (escape s)

quote : String → String
unfolding escape
quote s = "\"" <> escape s

unfoldable mutual
  unfolding quote decimal

  pub dumps : Value → String
  dumps null = "null"
  dumps (bool true) = "true"
  dumps (bool false) = "false"
  dumps (num n) = decimal n
  dumps (neg n) = "-" <> decimal (suc n)
  dumps (str s) = quote s
  dumps (obj end) = "{}"
  dumps (obj (field k v fs)) = "{" <> (quote k <> (":" <> (dumps v <> dumps_fields fs)))
  dumps (arr nil) = "[]"
  dumps (arr (cons v vs)) = "[" <> (dumps v <> dumps_items vs)

  dumps_fields : Fields → String
  dumps_fields end = "}"
  dumps_fields (field k v fs) = "," <> (quote k <> (":" <> (dumps v <> dumps_fields fs)))

  dumps_items : Items → String
  dumps_items nil = "]"
  dumps_items (cons v vs) = "," <> (dumps v <> dumps_items vs)

dumps_run :
    dumps (obj (field "a" (arr (cons (num 10) (cons (str "é\"") nil))) end))
    ≡ "{\"a\":[10,\"\\u00e9\\\"\"]}"
unfolding dumps nat_eq escape decimal
dumps_run = refl
