-- ===== src/Base64/RoundTrip.antt =====
-- `base64.urlsafe_b64decode(segment + "=" * (-len(segment) % 4))` undoes `b64url`.
use Prim.Native.Char.{Char, code}
use Prim.Native.String.{String}
use text.Mathlib.TextLemmas.{cons-append}
use agent_identity_demos.Prelude.{
  ℕ, zero, suc, ◌+◌, ◌*◌, ◌/◌, ◌%◌, ◌<◌, ◌≡◌, refl, Bool, true, false, ◌&&◌, Option, none, some,
  List, [], ◌∷◌, arith, All, ltb, ◌==◌, nat_eq, if◌then◌else◌,
}
use agent_identity_demos.Prelude.Text.{rstrip_by, size}
use agent_identity_demos.Base64.{
  ◌∷ᶜ◌, Group, take_sextet, urlsafe, sextet, sextet_of, b64encode, b64url, a2b, at_group, b64decode,
  is_ascii, cons_byte, pad_segment,
}

-- A character of the alphabet decodes to its index, is ASCII, and is no padding.
sextet_good : ℕ → Bool
sextet_good v =
    let c = code (sextet urlsafe v) in
    ltb c 128
    && (if c == b'=' then false else elim (sextet_of true c) [ none ↦ false | some u ↦ u == v ])

-- A test passes on every number below a bound.
holds_below : (ℕ → Bool) → ℕ → Bool
holds_below test zero = true
holds_below test (suc bound) = if test bound then holds_below test bound else false

holds_below_lem :
    (test : ℕ → Bool) (bound v : ℕ) → v < bound → holds_below test bound ≡ true → test v ≡ true
unfolding holds_below
holds_below_lem test zero v below passes = absurd (omega arith)
holds_below_lem test (suc bound) v below passes = ground (arith, holds_below_lem test bound v)

sextet_table : holds_below sextet_good 64 ≡ true
unfolding holds_below sextet_good sextet sextet_of nat_eq
sextet_table = refl

module _ (v : ℕ) (h : v < 64) where
  good : sextet_good v ≡ true
  good = holds_below_lem sextet_good 64 v h sextet_table

  sextet_of-sextet : sextet_of true (code (sextet urlsafe v)) ≡ some v
  unfolding sextet_good
  sextet_of-sextet = ground (arith, good)

  sextet-not-pad : (code (sextet urlsafe v) == b'=') ≡ false
  unfolding sextet_good
  sextet-not-pad = ground (arith, good)

  sextet-ascii : ltb (code (sextet urlsafe v)) 128 ≡ true
  unfolding sextet_good
  sextet-ascii = ground (arith, good)

  module _ (s : String) where
    is_ascii-sextet : is_ascii (String.◌∷◌ (sextet urlsafe v) s) ≡ is_ascii s
    unfolding is_ascii
    is_ascii-sextet = rw sextet-ascii

    rstrip-sextet :
        rstrip_by (λ c. c == b'=') (String.◌∷◌ (sextet urlsafe v) s)
        ≡ String.◌∷◌ (sextet urlsafe v) (rstrip_by (λ c. c == b'=') s)
    unfolding rstrip_by
    rstrip-sextet = ground (arith, sextet-not-pad)

    a2b-sextet :
        (g : Group)
        → a2b true (String.◌∷◌ (sextet urlsafe v) s) g
          ≡ cons_byte (take_sextet g.quad g.left v).0 (a2b true s (take_sextet g.quad g.left v).1)
    unfolding a2b
    a2b-sextet g = rw (sextet-not-pad, sextet_of-sextet)

-- Each of these numbers is a byte.
abbrev pub IsBytes : List ℕ → Type 0
IsBytes = All (λ b. b < 256)

abbrev start : Group
start = at_group 0 0

-- The bits that four characters carry make up three bytes.
bytes_of_sextets :
    (a b c : ℕ) (rest : List ℕ)
    → a < 256
    → b < 256
    → c < 256
    → ◌≡◌ {A = Option (List ℕ)}
        (some (
          (a / 4 * 4 + (a % 4 * 16 + b / 16) / 16)
          ∷ ((a % 4 * 16 + b / 16) % 16 * 16 + (b % 16 * 4 + c / 64) / 4)
          ∷ ((b % 16 * 4 + c / 64) % 4 * 64 + c % 64)
          ∷ rest))
        (some (a ∷ b ∷ c ∷ rest))
bytes_of_sextets a b c rest ha hb hc =
    let e₁ : a / 4 * 4 + (a % 4 * 16 + b / 16) / 16 ≡ a = omega arith in
    let e₂ : (a % 4 * 16 + b / 16) % 16 * 16 + (b % 16 * 4 + c / 64) / 4 ≡ b = omega arith in
    let e₃ : (b % 16 * 4 + c / 64) % 4 * 64 + c % 64 ≡ c = omega arith in rw (e₁, e₂, e₃)

pub a2b-b64encode : (bs : List ℕ) → IsBytes bs → a2b true (b64encode urlsafe bs) start ≡ some bs
unfolding b64encode
a2b-b64encode [] h = unfold a2b nat_eq in refl
a2b-b64encode (a ∷ []) (ha, _) =
    let e : a / 4 * 4 + a % 4 * 16 / 16 ≡ a = omega arith in
    rw (a2b-sextet (a / 4) (omega arith), a2b-sextet (a % 4 * 16) (omega arith))
      (unfold a2b nat_eq in rw e)
a2b-b64encode (a ∷ b ∷ []) (ha, (hb, _)) =
    let e₁ : a / 4 * 4 + (a % 4 * 16 + b / 16) / 16 ≡ a = omega arith in
    let e₂ : (a % 4 * 16 + b / 16) % 16 * 16 + b % 16 * 4 / 4 ≡ b = omega arith in
    rw
      (
        a2b-sextet (a / 4) (omega arith),
        a2b-sextet (a % 4 * 16 + b / 16) (omega arith),
        a2b-sextet (b % 16 * 4) (omega arith),
      )
      (unfold a2b nat_eq in rw (e₁, e₂))
a2b-b64encode (a ∷ b ∷ c ∷ rest) (ha, (hb, (hc, hr))) =
    rw
      (
        a2b-sextet (a / 4) (omega arith),
        a2b-sextet (a % 4 * 16 + b / 16) (omega arith),
        a2b-sextet (b % 16 * 4 + c / 64) (omega arith),
        a2b-sextet (c % 64) (omega arith),
        a2b-b64encode rest hr,
      )
      (bytes_of_sextets a b c rest ha hb hc)

is_ascii-b64encode : (bs : List ℕ) → IsBytes bs → is_ascii (b64encode urlsafe bs) ≡ true
unfolding b64encode
is_ascii-b64encode [] h = unfold is_ascii in refl
is_ascii-b64encode (a ∷ []) (ha, _) =
    rw (is_ascii-sextet (a / 4) (omega arith), is_ascii-sextet (a % 4 * 16) (omega arith))
      (unfold is_ascii in refl)
is_ascii-b64encode (a ∷ b ∷ []) (ha, (hb, _)) =
    rw
      (
        is_ascii-sextet (a / 4) (omega arith),
        is_ascii-sextet (a % 4 * 16 + b / 16) (omega arith),
        is_ascii-sextet (b % 16 * 4) (omega arith),
      )
      (unfold is_ascii in refl)
is_ascii-b64encode (a ∷ b ∷ c ∷ rest) (ha, (hb, (hc, hr))) =
    rw
      (
        is_ascii-sextet (a / 4) (omega arith),
        is_ascii-sextet (a % 4 * 16 + b / 16) (omega arith),
        is_ascii-sextet (b % 16 * 4 + c / 64) (omega arith),
        is_ascii-sextet (c % 64) (omega arith),
      )
      (is_ascii-b64encode rest hr)

-- Four characters in front do not change the padding.
pad_segment-four :
    (c d e f : Char) (s : String)
    → pad_segment (c ∷ᶜ d ∷ᶜ e ∷ᶜ f ∷ᶜ s) ≡ c ∷ᶜ d ∷ᶜ e ∷ᶜ f ∷ᶜ pad_segment s
unfolding pad_segment
pad_segment-four c d e f s =
    let same : suc (suc (suc (suc (size s)))) % 4 ≡ size s % 4 = omega arith in
    rw same (simp cons-append)

b64url-cons :
    (a b c : ℕ) (rest : List ℕ)
    → a < 256
    → b < 256
    → c < 256
    → b64url (a ∷ b ∷ c ∷ rest)
      ≡ sextet urlsafe (a / 4)
        ∷ᶜ sextet urlsafe (a % 4 * 16 + b / 16)
        ∷ᶜ sextet urlsafe (b % 16 * 4 + c / 64)
        ∷ᶜ sextet urlsafe (c % 64)
        ∷ᶜ b64url rest
unfolding b64url
b64url-cons a b c rest ha hb hc = rw (
  rstrip-sextet (a / 4) (omega arith),
  rstrip-sextet (a % 4 * 16 + b / 16) (omega arith),
  rstrip-sextet (b % 16 * 4 + c / 64) (omega arith),
  rstrip-sextet (c % 64) (omega arith),
)

pad_segment-b64url : (bs : List ℕ) → IsBytes bs → pad_segment (b64url bs) ≡ b64encode urlsafe bs
unfolding b64encode
pad_segment-b64url [] h = unfold pad_segment b64url in refl
pad_segment-b64url (a ∷ []) (ha, _) =
    unfold b64url in
    rw
      (
        rstrip-sextet (a / 4) (omega arith) (sextet urlsafe (a % 4 * 16) ∷ᶜ "=="),
        rstrip-sextet (a % 4 * 16) (omega arith) "==",
      )
      (unfold pad_segment rstrip_by nat_eq in simp cons-append)
pad_segment-b64url (a ∷ b ∷ []) (ha, (hb, _)) =
    unfold b64url in
    rw
      (
        rstrip-sextet (a / 4) (omega arith),
        rstrip-sextet (a % 4 * 16 + b / 16) (omega arith),
        rstrip-sextet (b % 16 * 4) (omega arith),
      )
      (unfold pad_segment rstrip_by nat_eq in simp cons-append)
pad_segment-b64url (a ∷ b ∷ c ∷ rest) (ha, (hb, (hc, hr))) =
    rw (b64url-cons a b c rest ha hb hc, pad_segment-four, pad_segment-b64url rest hr)

-- Decoding a segment that `b64url` made, padded as the services pad it, gives the bytes back.
pub b64decode-b64url :
    (bs : List ℕ) → IsBytes bs → b64decode true (pad_segment (b64url bs)) ≡ some bs
unfolding b64decode
b64decode-b64url bs h = rw (pad_segment-b64url bs h, is_ascii-b64encode bs h) (a2b-b64encode bs h)
