-- ===== src/OpenCode/Finding.antt =====
-- `_parse_finding` of cross-domain-id-jag-vc/opencode-agent/app.py: a finding in the reply of the
-- model, from a JSON object or from the number of a CWE.
use Prim.Native.Char.{code}
use Prim.Native.String.{String}
use agent_identity_demos.Prelude.{
  suc, ℕ, zero, ◌<>◌, Bool, ◌&&◌, ◌||◌, Option, none, some, List, [], ◌∷◌, leb, ◌==◌, nat_eq,
  if◌then◌else◌, string_eq,
}
use agent_identity_demos.Prelude.Text.{
  is_empty, is_space, is_digit, starts_with_lower, strip, take_text, encode,
}
use agent_identity_demos.Value.{Value, Fields, str, obj, end, field, get, truthy}
use agent_identity_demos.Effects.{World}

-- The text up to the last `c`, with it; none where there is none.
up_to_last : ℕ → String → Option String
up_to_last c String.[] = none
up_to_last c (String.◌∷◌ d s) = elim (up_to_last c s) [
  | some t ↦ some (String.◌∷◌ d t)
  | none ↦ if code d == c then some (String.◌∷◌ d String.[]) else none
]

-- `re.search(r"\{.*\}", s, re.S)`: from the first brace that opens to the last that closes.
unfoldable pub braced : String → Option String
unfolding up_to_last
braced String.[] = none
braced (String.◌∷◌ c s) =
    let later = braced s in
    let closed = up_to_last b'}' s in
    if code c == b'{' then elim closed [ none ↦ none | some t ↦ some (String.◌∷◌ c t) ] else later

digits_of : String → String
unfolding is_digit
digits_of String.[] = String.[]
digits_of (String.◌∷◌ c s) =
    let rest = digits_of s in if is_digit (code c) then String.◌∷◌ c rest else String.[]

-- What follows one hyphen or one white space, if there is one.
after_separator : String → String
unfolding is_space
after_separator String.[] = String.[]
after_separator (String.◌∷◌ c s) = if code c == b'-' || is_space (code c) then s else String.◌∷◌ c s

unfoldable pub drop_text : ℕ → String → String
drop_text zero s = s
drop_text (suc n) String.[] = String.[]
drop_text (suc n) (String.◌∷◌ c s) = drop_text n s

-- The digits of a match of `CWE[-\s]?(\d+)` at the start, or an empty text.
cwe_here : String → String
unfolding starts_with_lower after_separator digits_of drop_text
cwe_here s = if starts_with_lower s "cwe" then digits_of (after_separator (drop_text 3 s)) else ""

-- `re.search(r"CWE[-\s]?(\d+)", s, re.I)`, for ASCII digits: the group, or an empty text.
unfoldable pub cwe_number : String → String
unfolding cwe_here
cwe_number String.[] = String.[]
cwe_number (String.◌∷◌ c s) =
    let later = cwe_number s in
    let here = cwe_here (String.◌∷◌ c s) in if is_empty here then later else here

line_end : ℕ → Bool
line_end c = (leb 10 c && leb c 13) || (leb 28 c && leb c 30) || c == 133 || c == 8232 || c == 8233

-- `s.splitlines()[0]` for a text that is not empty.
first_line : String → String
unfolding line_end
first_line String.[] = String.[]
first_line (String.◌∷◌ c s) =
    let rest = first_line s in if line_end (code c) then String.[] else String.◌∷◌ c rest

unfoldable pub finding_keys : List String
finding_keys = "id" ∷ "title" ∷ "severity" ∷ "file" ∷ "detail" ∷ []

-- `{k: parsed.get(k) for k in keys if parsed.get(k)}`
unfoldable pub present : List String → Fields → Fields
present [] parsed = end
present (k ∷ keys) parsed =
    let rest = present keys parsed in
    if truthy (get k parsed) then field k (get k parsed) rest else rest

-- The finding of a JSON object with an id.
unfoldable pub from_json : Option Value → Option Fields
unfolding finding_keys present
from_json (some (obj parsed)) =
    if truthy (get "id" parsed) then some (present finding_keys parsed) else none
from_json _ = none

unfoldable pub loads_text : World → Option String → Option Value
unfolding encode
loads_text w none = none
loads_text w (some s) = w.loads (encode s)

unfoldable pub from_cwe : String → String → String → Fields
unfolding first_line strip
from_cwe source_path text number =
    if is_empty number
    then end
    else field "id" (str ("CWE-" <> number)) (
        field "title" (str (take_text 160 (first_line (strip text))))
          (field "severity" (str "HIGH") (field "file" (str source_path) end)))

abbrev pub finding_or : Option Fields → Fields → Fields
finding_or (some finding) other = finding
finding_or none other = other

unfoldable pub parse_finding : World → String → String → Fields
unfolding braced cwe_number from_json from_cwe loads_text
parse_finding w source_path text =
    finding_or (from_json (loads_text w (braced text)))
      (from_cwe source_path text (cwe_number text))
