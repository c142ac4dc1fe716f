-- ===== src/Base64.antt =====
-- Python's base64 module as the services use it, and `b64url` of
-- cross-domain-id-jag-vc/agntcy_identity_client/vault.py. Bytes are numbers below 256.
pub mod RoundTrip
mod Tests
use Prim.Native.Char.{Char, code}
use Prim.Native.String.{String}
use agent_identity_demos.Prelude.{
  ℕ, zero, suc, ◌+◌, ◌-◌, ◌*◌, ◌/◌, ◌%◌, Bool, true, false, ◌&&◌, Option, none, some, List, [], ◌∷◌,
  ◌<>◌, ◌||◌, leb, ltb, ◌==◌, nat_eq, if◌then◌else◌,
}
use agent_identity_demos.Prelude.Text.{nth, size, rstrip_by}

abbrev pub standard : String
standard = "ABCDEFGHIJKLMNOPQRSTUVWXYZabcdefghijklmnopqrstuvwxyz0123456789+/"

abbrev pub urlsafe : String
urlsafe = "ABCDEFGHIJKLMNOPQRSTUVWXYZabcdefghijklmnopqrstuvwxyz0123456789-_"

-- The character of six bits, in one of the two alphabets.
unfoldable pub sextet : String → ℕ → Char
unfolding nth
sextet alphabet n = nth alphabet n "A"

infixr 67 ◌∷ᶜ◌
abbrev ◌∷ᶜ◌ : Char → String → String
c ∷ᶜ s = String.◌∷◌ c s

-- `base64.b64encode(bytes).decode()`, and `urlsafe_b64encode` with the other alphabet.
unfoldable pub b64encode : String → List ℕ → String
unfolding sextet
b64encode al [] = ""
b64encode al (a ∷ []) = sextet al (a / 4) ∷ᶜ sextet al (a % 4 * 16) ∷ᶜ "=="
b64encode al (a ∷ b ∷ []) =
    sextet al (a / 4) ∷ᶜ sextet al (a % 4 * 16 + b / 16) ∷ᶜ sextet al (b % 16 * 4) ∷ᶜ "="
b64encode al (a ∷ b ∷ c ∷ rest) =
    sextet al (a / 4)
    ∷ᶜ sextet al (a % 4 * 16 + b / 16)
    ∷ᶜ sextet al (b % 16 * 4 + c / 64)
    ∷ᶜ sextet al (c % 64)
    ∷ᶜ b64encode al rest

-- `b64url(data)`
unfoldable pub b64url : List ℕ → String
unfolding b64encode rstrip_by
b64url bytes = rstrip_by (λ c. c == b'=') (b64encode urlsafe bytes)

-- The six bits that a character stands for. `urlsafe_b64decode` translates `-` and `_` to `+` and
-- `/` first, which the flag stands for.
unfoldable pub sextet_of : Bool → ℕ → Option ℕ
sextet_of safe c =
    if leb b'A' c && leb c b'Z'
    then some (c - b'A')
    else if leb b'a' c && leb c b'z'
    then some (c - b'a' + 26)
    else if leb b'0' c && leb c b'9'
    then some (c - b'0' + 52)
    else if c == b'+' || (safe && c == b'-')
    then some 62
    else if c == b'/' || (safe && c == b'_')
    then some 63
    else none

-- The state of `binascii.a2b_base64`: the position in the group of four characters, the bits that
-- are left over, and the padding characters in a row.
pub record Group : Type 0 where
  pub quad : ℕ
  pub left : ℕ
  pub pads : ℕ

abbrev at_group : ℕ → ℕ → Group
at_group quad left = record { quad = quad; left = left; pads = 0 }

-- The group after six more bits, and the byte that they complete.
abbrev pub take_sextet : ℕ → ℕ → ℕ → Option ℕ × Group
take_sextet zero left v = (none, at_group 1 v)
take_sextet (suc zero) left v = (some (left * 4 + v / 16), at_group 2 (v % 16))
take_sextet (suc (suc zero)) left v = (some (left * 16 + v / 4), at_group 3 (v % 4))
take_sextet (suc (suc (suc quad))) left v = (some (left * 64 + v), at_group 0 0)

abbrev pub cons_byte : Option ℕ → Option (List ℕ) → Option (List ℕ)
cons_byte none bs = bs
cons_byte (some b) none = none
cons_byte (some b) (some bs) = some (b ∷ bs)

-- What the decoder does at one character: stop, pass over it, count a padding, or take its bits.
abbrev ends_text : ℕ → Group → Bool
ends_text c g = c == b'=' && leb 2 g.quad && leb 4 (g.quad + g.pads + 1)

abbrev take_char : Bool → ℕ → Group → Option ℕ × Group
take_char safe c g =
    if c == b'='
    then (none, if leb 2 g.quad then record g { pads = g.pads + 1 } else g)
    else elim (sextet_of safe c) [ none ↦ (none, g) | some v ↦ take_sextet g.quad g.left v ]

-- `binascii.a2b_base64`. A complete padding ends the text, and an incomplete group is an error.
unfoldable pub a2b : Bool → String → Group → Option (List ℕ)
unfolding sextet_of
a2b safe String.[] g = if g.quad == 0 then some [] else none
a2b safe (String.◌∷◌ c s) g =
    let (byte, g') = take_char safe (code c) g in
    let rest = a2b safe s g' in if ends_text (code c) g then some [] else cons_byte byte rest

unfoldable pub is_ascii : String → Bool
is_ascii String.[] = true
is_ascii (String.◌∷◌ c s) = ltb (code c) 128 && is_ascii s

-- `base64.b64decode(s)` and `base64.urlsafe_b64decode(s)`; none where they raise.
unfoldable pub b64decode : Bool → String → Option (List ℕ)
unfolding a2b is_ascii
b64decode safe s = if is_ascii s then a2b safe s (at_group 0 0) else none

repeat_pad : ℕ → String
repeat_pad zero = ""
repeat_pad (suc n) = String.◌∷◌ "=" (repeat_pad n)

-- `segment + "=" * (-len(segment) % 4)`
unfoldable pub pad_segment : String → String
unfolding repeat_pad size
pad_segment s = s <> repeat_pad ((4 - size s % 4) % 4)
