-- ===== src/Prelude/Text.antt =====
-- Python's `str` methods that the services call, over the native texts.
use Prim.Native.Nat.{ℕ, zero, suc, ◌+◌, ◌-◌, ◌*◌, ◌/◌, ◌%◌, Ordering}
use Prim.Native.Char.{Char, code}
use Prim.Native.String.{String, ◌++◌ as ◌<>◌, compare}
use mathlib.Core.Bool.{Bool, true, false, not, ◌&&◌, ◌||◌}
use mathlib.Core.Option.{Option, none, some}
use mathlib.Core.List.{List, [], ◌∷◌}
use agent_identity_demos.Prelude.Equality.{◌==◌, nat_eq, ltb, leb, if◌then◌else◌}
use agent_identity_demos.Prelude.Lists.{filter}

-- `bool(s)` is `not (is_empty s)`.
abbrev pub is_empty : String → Bool
is_empty String.[] = true
is_empty (String.◌∷◌ c s) = false

abbrev push : Char → List String → List String
push c [] = (String.◌∷◌ c String.[]) ∷ []
push c (p ∷ ps) = (String.◌∷◌ c p) ∷ ps

-- The parts of `s` between the characters that `sep` accepts, empty ones too.
unfoldable pub split_by : (ℕ → Bool) → String → List String
split_by sep String.[] = String.[] ∷ []
split_by sep (String.◌∷◌ c s) =
    let rest = split_by sep s in if sep (code c) then String.[] ∷ rest else push c rest

-- `s.split(c)` for one character `c`.
unfoldable pub split : ℕ → String → List String
unfolding split_by
split sep s = split_by (λ c. c == sep) s

-- `s.split(c, 1)`: the text before the first `c`, and what follows it if there is one.
unfoldable pub split_once : ℕ → String → String × Option String
split_once sep String.[] = (String.[], none)
split_once sep (String.◌∷◌ c s) =
    let (before, after) = split_once sep s in
    if code c == sep then (String.[], some s) else (String.◌∷◌ c before, after)

-- `str.isspace` for one code point.
unfoldable pub is_space : ℕ → Bool
is_space c =
    (leb 9 c && leb c 13)
    || (leb 28 c && leb c 32)
    || c == 133
    || c == 160
    || c == 5760
    || (leb 8192 c && leb c 8202)
    || c == 8232
    || c == 8233
    || c == 8239
    || c == 8287
    || c == 12288

-- `[p for p in ps if p]`
unfoldable pub nonempty : List String → List String
unfolding filter
nonempty = filter (λ p. not (is_empty p))

-- `s.split()`: the runs of characters that are no white space.
unfoldable pub words : String → List String
unfolding split_by nonempty is_space
words s = nonempty (split_by is_space s)

unfoldable pub lstrip_by : (ℕ → Bool) → String → String
lstrip_by p String.[] = String.[]
lstrip_by p (String.◌∷◌ c s) =
    let rest = lstrip_by p s in if p (code c) then rest else String.◌∷◌ c s

unfoldable pub rstrip_by : (ℕ → Bool) → String → String
rstrip_by p String.[] = String.[]
rstrip_by p (String.◌∷◌ c s) =
    let rest = rstrip_by p s in if is_empty rest && p (code c) then String.[] else String.◌∷◌ c rest

-- `s.strip()`
unfoldable pub strip : String → String
unfolding lstrip_by rstrip_by is_space
strip s = rstrip_by is_space (lstrip_by is_space s)

-- `url.rstrip("/")`
unfoldable pub rstrip_slash : String → String
unfolding rstrip_by
rstrip_slash = rstrip_by (λ c. c == b'/')

-- The character at an index, or `d` past the end.
unfoldable pub nth : String → ℕ → Char → Char
nth String.[] i d = d
nth (String.◌∷◌ c s) zero d = c
nth (String.◌∷◌ c s) (suc i) d = nth s i d

-- ASCII lower case. No other code point has a lower case among the letters that it is compared to.
unfoldable pub to_lower : ℕ → ℕ
to_lower c = if leb b'A' c && leb c b'Z' then c + 32 else c

lower_char : Char → Char
unfolding nth
lower_char c =
    if leb b'A' (code c) && leb (code c) b'Z'
    then nth "abcdefghijklmnopqrstuvwxyz" (code c - b'A') c
    else c

-- `s.lower()`, for a text that is compared to lower-case ASCII texts only.
unfoldable pub lower : String → String
unfolding lower_char
lower String.[] = String.[]
lower (String.◌∷◌ c s) = String.◌∷◌ (lower_char c) (lower s)

-- `s.lower().startswith(t)` for a lower-case ASCII text `t`.
unfoldable pub starts_with_lower : String → String → Bool
unfolding to_lower
starts_with_lower s String.[] = true
starts_with_lower String.[] (String.◌∷◌ d t) = false
starts_with_lower (String.◌∷◌ c s) (String.◌∷◌ d t) =
    to_lower (code c) == code d && starts_with_lower s t

-- `s.startswith(t)`
unfoldable pub starts_with : String → String → Bool
starts_with s String.[] = true
starts_with String.[] (String.◌∷◌ d t) = false
starts_with (String.◌∷◌ c s) (String.◌∷◌ d t) = code c == code d && starts_with s t

-- `t in s`
unfoldable pub includes : String → String → Bool
unfolding starts_with
includes s String.[] = true
includes String.[] (String.◌∷◌ d t) = false
includes (String.◌∷◌ c s) (String.◌∷◌ d t) =
    starts_with (String.◌∷◌ c s) (String.◌∷◌ d t) || includes s (String.◌∷◌ d t)

-- `sep.join(ps)`
unfoldable pub join : String → List String → String
join sep [] = String.[]
join sep (p ∷ []) = p
join sep (p ∷ q ∷ ps) = p <> (sep <> join sep (q ∷ ps))

unfoldable pub is_digit : ℕ → Bool
is_digit c = leb b'0' c && leb c b'9'

unfoldable pub all_digits : String → Bool
unfolding is_digit
all_digits String.[] = true
all_digits (String.◌∷◌ c s) = is_digit (code c) && all_digits s

-- `s.isdecimal()` for Latin-1 text, which is what a header decodes to.
unfoldable pub is_decimal : String → Bool
unfolding all_digits
is_decimal s = not (is_empty s) && all_digits s

unfoldable pub digits_value : ℕ → String → ℕ
digits_value acc String.[] = acc
digits_value acc (String.◌∷◌ c s) = digits_value (acc * 10 + (code c - 48)) s

-- `int(s)` for a decimal text.
unfoldable pub decimal_value : String → ℕ
unfolding digits_value
decimal_value = digits_value 0

digit_text : ℕ → String
unfolding nth
digit_text d = String.◌∷◌ (nth "0123456789" d "0") String.[]

decimal_fuel : ℕ → ℕ → String
unfolding digit_text
decimal_fuel zero n = String.[]
decimal_fuel (suc f) n =
    let rest = decimal_fuel f (n / 10) in
    if ltb n 10 then digit_text n else rest <> digit_text (n % 10)

-- `str(n)`. A number has no more digits than its value plus one.
unfoldable pub decimal : ℕ → String
unfolding decimal_fuel
decimal n = decimal_fuel (suc n) n

-- `len(s)`
unfoldable pub size : String → ℕ
size String.[] = 0
size (String.◌∷◌ c s) = suc (size s)

-- `s[:n]`
unfoldable pub take_text : ℕ → String → String
take_text zero s = String.[]
take_text (suc n) String.[] = String.[]
take_text (suc n) (String.◌∷◌ c s) = String.◌∷◌ c (take_text n s)

insert_text : String → List String → List String
insert_text s [] = s ∷ []
insert_text s (t ∷ ts) = elim (compare s t) [
  | Ordering.lt ↦ s ∷ t ∷ ts
  | Ordering.eq ↦ t ∷ ts
  | Ordering.gt ↦ t ∷ insert_text s ts
]

-- `sorted(set(ss))`, in the order of code points.
unfoldable pub sorted_set : List String → List String
unfolding insert_text
sorted_set [] = []
sorted_set (s ∷ ss) = insert_text s (sorted_set ss)

-- The UTF-8 bytes of one code point.
utf8_bytes : ℕ → List ℕ → List ℕ
utf8_bytes c rest =
    if ltb c 128
    then c ∷ rest
    else if ltb c 2048
    then (192 + c / 64) ∷ (128 + c % 64) ∷ rest
    else if ltb c 65536
    then (224 + c / 4096) ∷ (128 + c / 64 % 64) ∷ (128 + c % 64) ∷ rest
    else (240 + c / 262144) ∷ (128 + c / 4096 % 64) ∷ (128 + c / 64 % 64) ∷ (128 + c % 64) ∷ rest

-- `s.encode()`
unfoldable pub encode : String → List ℕ
unfolding utf8_bytes
encode String.[] = []
encode (String.◌∷◌ c s) = utf8_bytes (code c) (encode s)

remove_from : String → ℕ → String → String
unfolding starts_with size
remove_from t n String.[] = String.[]
remove_from t (suc n) (String.◌∷◌ c s) = remove_from t n s
remove_from t zero (String.◌∷◌ c s) =
    let found = starts_with (String.◌∷◌ c s) t in
    let rest = remove_from t (if found then size t - 1 else 0) s in
    if found then rest else String.◌∷◌ c rest

-- `s.replace(t, "")` for a text `t` that is not empty.
unfoldable pub remove_text : String → String → String
unfolding remove_from
remove_text t s = remove_from t 0 s

-- Digits, with single underscores between them.
digits_only : Bool → String → Bool
unfolding is_digit
digits_only after_digit String.[] = after_digit
digits_only after_digit (String.◌∷◌ c s) =
    let digit = is_digit (code c) in
    (digit || (after_digit && code c == b'_')) && digits_only digit s

digits_without : ℕ → String → ℕ
digits_without acc String.[] = acc
digits_without acc (String.◌∷◌ c s) =
    digits_without (if code c == b'_' then acc else acc * 10 + (code c - 48)) s

digit_count : String → ℕ
digit_count String.[] = 0
digit_count (String.◌∷◌ c s) = let n = digit_count s in if code c == b'_' then n else suc n

unsigned : String → Option ℕ
unfolding digits_only digits_without digit_count
unsigned s =
    if digits_only false s && leb (digit_count s) 4300 then some (digits_without 0 s) else none

signed : String → Option (Bool × ℕ)
unfolding unsigned
signed String.[] = none
signed (String.◌∷◌ c s) =
    if code c == b'-'
    then elim (unsigned s) [ none ↦ none | some n ↦ some (true, n) ]
    else elim (unsigned (if code c == b'+' then s else String.◌∷◌ c s)) [
      | none ↦ none
      | some n ↦ some (false, n)
    ]

-- `int(s)` for a text whose digits are Latin-1: whether a minus stands before it, and its size; none
-- where it is a `ValueError`, also for more than 4300 digits.
unfoldable pub read_int : String → Option (Bool × ℕ)
unfolding signed strip
read_int s = signed (strip s)
