-- ===== src/Client/Der.antt =====
-- `_der_rsa_public_numbers` of cross-domain-id-jag-vc/agntcy_identity_client/vault.py, and the same
-- reader in identity-node-init.py.
pub mod Read
use agent_identity_demos.Prelude.{
  ℕ, zero, suc, ◌+◌, ◌*◌, ◌%◌, List, [], ◌∷◌, ltb, nat_eq, if◌then◌else◌,
}
use agent_identity_demos.Effects.{index_error, Result, ok, err}

-- `data[off]`
unfoldable pub byte_at : List ℕ → ℕ → Result ℕ
byte_at [] off = err index_error
byte_at (b ∷ bs) zero = ok b
byte_at (b ∷ bs) (suc off) = byte_at bs off

unfoldable pub drop : ℕ → List ℕ → List ℕ
drop zero bs = bs
drop (suc n) [] = []
drop (suc n) (b ∷ bs) = drop n bs

unfoldable pub take : ℕ → List ℕ → List ℕ
take zero bs = []
take (suc n) [] = []
take (suc n) (b ∷ bs) = b ∷ take n bs

-- `data[from:from + count]`
abbrev pub slice : List ℕ → ℕ → ℕ → List ℕ
slice bytes start count = take count (drop start bytes)

-- `int.from_bytes(bytes, "big")`, onto what was read before.
unfoldable pub from_bytes : ℕ → List ℕ → ℕ
from_bytes acc [] = acc
from_bytes acc (b ∷ bs) = from_bytes (acc * 256 + b) bs

abbrev length_of : List ℕ → ℕ → Result ℕ → Result (ℕ × ℕ)
length_of bytes off (err e) = err e
length_of bytes off (ok first) =
    if ltb first 128
    then ok (first, off + 1)
    else ok (from_bytes 0 (slice bytes (off + 1) (first % 128)), off + 1 + first % 128)

-- `read_len`: a length, and the offset behind it.
unfoldable pub read_len : List ℕ → ℕ → Result (ℕ × ℕ)
unfolding byte_at drop take from_bytes
read_len bytes off = length_of bytes off (byte_at bytes off)

-- The value of an element and the offset behind it. No caller asks for the tag, which cannot be
-- out of range where the length is not.
abbrev value_of : List ℕ → Result (ℕ × ℕ) → Result (List ℕ × ℕ)
value_of bytes (err e) = err e
value_of bytes (ok (len, val_off)) = ok (slice bytes val_off len, val_off + len)

unfoldable pub read_tlv : List ℕ → ℕ → Result (List ℕ × ℕ)
unfolding read_len
read_tlv bytes off = value_of bytes (read_len bytes (off + 1))

unfoldable pub strip_leading_zero : List ℕ → List ℕ
strip_leading_zero (zero ∷ b ∷ bs) = b ∷ bs
strip_leading_zero bs = bs

infixl 5 ◌>>=ʳ◌
abbrev pub ◌>>=ʳ◌ {ℓ κ} : {A : Type ℓ} {B : Type κ} → Result A → (A → Result B) → Result B
ok a >>=ʳ f = f a
err e >>=ʳ f = err e

-- The modulus and the exponent of a SubjectPublicKeyInfo.
unfoldable pub rsa_public_numbers : List ℕ → Result (List ℕ × List ℕ)
unfolding read_tlv strip_leading_zero drop
rsa_public_numbers der = read_tlv der 0 >>=ʳ λ (outer_seq, _).
    read_tlv outer_seq 0 >>=ʳ λ (_, off2). read_tlv outer_seq off2 >>=ʳ λ (bitstring, _).
    read_tlv (drop 1 bitstring) 0 >>=ʳ λ (rsa_pub_seq, _).
    read_tlv rsa_pub_seq 0 >>=ʳ λ (n_bytes, off3). read_tlv rsa_pub_seq off3 >>=ʳ λ (e_bytes, _).
    ok (strip_leading_zero n_bytes, strip_leading_zero e_bytes)
