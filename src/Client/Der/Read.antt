-- ===== src/Client/Der/Read.antt =====
-- `_der_rsa_public_numbers` of cross-domain-id-jag-vc/agntcy_identity_client/vault.py against the
-- encoding that it reads: a tag, a length of one byte or of several, and a value.
use agent_identity_demos.Prelude.{
  ℕ, suc, ◌+◌, ◌%◌, ◌<◌, ◌≡◌, refl, ◌∙◌, sym, ap, false, List, [], ◌∷◌, ◌++◌, arith, length, ltb,
}
use agent_identity_demos.Effects.{ok}
use agent_identity_demos.Client.Der.{
  byte_at, drop, take, from_bytes, read_len, read_tlv, strip_leading_zero, rsa_public_numbers,
}

byte_at-append :
    (pre : List ℕ) (b : ℕ) (rest : List ℕ) → byte_at (pre ++ (b ∷ rest)) (length pre) ≡ ok b
unfolding byte_at
byte_at-append [] b rest = refl
byte_at-append (p ∷ pre) b rest = byte_at-append pre b rest

drop-append : (pre rest : List ℕ) → drop (length pre) (pre ++ rest) ≡ rest
unfolding drop
drop-append [] rest = refl
drop-append (p ∷ pre) rest = drop-append pre rest

take-append : (value rest : List ℕ) → take (length value) (value ++ rest) ≡ value
unfolding take
take-append [] rest = refl
take-append (v ∷ value) rest = ap (λ xs. v ∷ xs) (take-append value rest)

length-append : (xs ys : List ℕ) → length (xs ++ ys) ≡ length xs + length ys
length-append [] ys = omega arith
length-append (x ∷ xs) ys = ground (arith, length-append xs ys)

append_assoc : (xs ys zs : List ℕ) → (xs ++ ys) ++ zs ≡ xs ++ (ys ++ zs)
append_assoc [] ys zs = refl
append_assoc (x ∷ xs) ys zs = ap (λ l. x ∷ l) (append_assoc xs ys zs)

-- Dropping to an offset that is the length of what stands before.
drop-at : (off : ℕ) (pre rest : List ℕ) → off ≡ length pre → drop off (pre ++ rest) ≡ rest
drop-at off pre rest e = rw e (drop-append pre rest)

-- A slice that starts behind `pre`, or behind one byte more.
slice-append :
    (off : ℕ) (pre value rest : List ℕ)
    → off ≡ length pre
    → take (length value) (drop off (pre ++ (value ++ rest))) ≡ value
slice-append off pre value rest e = rw (drop-at off pre (value ++ rest) e, take-append value rest)

slice-next :
    (pre : List ℕ) (b : ℕ) (value rest : List ℕ)
    → take (length value) (drop (length pre + 1) (pre ++ (b ∷ (value ++ rest)))) ≡ value
slice-next pre b value rest =
    ap (λ xs. take (length value) (drop (length pre + 1) xs))
      (sym (append_assoc pre (b ∷ []) (value ++ rest)))
    ∙ slice-append (length pre + 1) (pre ++ (b ∷ [])) value rest (sym (length-append pre (b ∷ [])))

-- The bytes of a length: itself below 128, or a count of bytes and its digits to the base 256.
pub data LengthOf : List ℕ → ℕ → Type 0 where
  short : (n : ℕ) → n < 128 → LengthOf (n ∷ []) n
  long :
      (octets : List ℕ)
      → length octets < 128
      → LengthOf ((128 + length octets) ∷ octets) (from_bytes 0 octets)

above : (k : ℕ) → ltb (128 + k) 128 ≡ false
above k = ground arith

count : (k : ℕ) → k < 128 → (128 + k) % 128 ≡ k
count k h = omega arith

behind : (p k : ℕ) → p + 1 + k ≡ p + suc k
behind p k = omega arith

read_len-LengthOf :
    (pre len rest : List ℕ) (n : ℕ)
    → LengthOf len n
    → read_len (pre ++ (len ++ rest)) (length pre) ≡ ok (n, length pre + length len)
unfolding read_len
read_len-LengthOf pre _ rest _ (short n below) = rw (byte_at-append pre n rest) (ground arith)
read_len-LengthOf pre _ rest _ (long octets below) =
    rw (byte_at-append pre (128 + length octets) (octets ++ rest)) (
      rw
        (
          above (length octets),
          count (length octets) below,
          slice-next pre (128 + length octets) octets rest,
        )
        (ap (λ n. ok (from_bytes 0 octets, n)) (behind (length pre) (length octets))))

-- An element: a tag, the length of the value, and the value.
pub data Element : List ℕ → List ℕ → Type 0 where
  element :
      (tag : ℕ) (len value : List ℕ)
      → LengthOf len (length value)
      → Element (tag ∷ (len ++ value)) value

-- A length and a value behind `pre`, which ends with the tag.
read_tlv-body :
    (off : ℕ) (pre len value rest : List ℕ)
    → off + 1 ≡ length pre
    → LengthOf len (length value)
    → read_tlv (pre ++ (len ++ (value ++ rest))) off
      ≡ ok (value, off + 1 + length len + length value)
unfolding read_tlv
read_tlv-body off pre len value rest e is_len =
    rw (e, read_len-LengthOf pre len (value ++ rest) (length value) is_len)
      (ap (λ v. ok (v, length pre + length len + length value))
        (ap (λ xs. take (length value) (drop (length pre + length len) xs))
            (sym (append_assoc pre len (value ++ rest)))
          ∙ slice-append (length pre + length len) (pre ++ len) value rest
              (sym (length-append pre len))))

tlv_end : (p l v : ℕ) → p + 1 + l + v ≡ p + suc (l + v)
tlv_end p l v = omega arith

-- An element is read wherever it stands.
read_tlv-Element :
    (pre bytes rest value : List ℕ)
    → Element bytes value
    → read_tlv (pre ++ (bytes ++ rest)) (length pre) ≡ ok (value, length pre + length bytes)
read_tlv-Element pre _ rest value (element tag len _ is_len) =
    ap (λ xs. read_tlv xs (length pre))
      (ap (λ xs. pre ++ (tag ∷ xs)) (append_assoc len value rest)
        ∙ sym (append_assoc pre (tag ∷ []) (len ++ (value ++ rest))))
    ∙ read_tlv-body (length pre) (pre ++ (tag ∷ [])) len value rest
        (sym (length-append pre (tag ∷ []))) is_len
    ∙ ap (λ n. ok (value, n))
        (tlv_end (length pre) (length len) (length value)
          ∙ ap (λ n. length pre + suc n) (sym (length-append len value)))

append_nil : (xs : List ℕ) → xs ++ [] ≡ xs
append_nil [] = refl
append_nil (x ∷ xs) = ap (λ l. x ∷ l) (append_nil xs)

-- The first element of a sequence, and a last one behind another.
read_tlv-first :
    (bytes rest value : List ℕ)
    → Element bytes value
    → read_tlv (bytes ++ rest) 0 ≡ ok (value, length bytes)
read_tlv-first bytes rest value e =
    read_tlv-Element [] bytes rest value e ∙ ap (λ n. ok (value, n)) (omega arith)

read_tlv-alone :
    (bytes value : List ℕ) → Element bytes value → read_tlv bytes 0 ≡ ok (value, length bytes)
read_tlv-alone bytes value e =
    ap (λ xs. read_tlv xs 0) (sym (append_nil bytes)) ∙ read_tlv-first bytes [] value e

read_tlv-last :
    (pre bytes value : List ℕ)
    → Element bytes value
    → read_tlv (pre ++ bytes) (length pre) ≡ ok (value, length pre + length bytes)
read_tlv-last pre bytes value e =
    ap (λ xs. read_tlv (pre ++ xs) (length pre)) (sym (append_nil bytes))
    ∙ read_tlv-Element pre bytes [] value e

-- From a SubjectPublicKeyInfo of any algorithm the reader takes the two integers of the key, each
-- without a leading zero.
pub rsa_public_numbers-Element :
    (der alg alg_id bits inner modulus exponent n e : List ℕ) (unused : ℕ)
    → Element der (alg ++ bits)
    → Element alg alg_id
    → Element bits (unused ∷ inner)
    → Element inner (modulus ++ exponent)
    → Element modulus n
    → Element exponent e
    → rsa_public_numbers der ≡ ok (strip_leading_zero n, strip_leading_zero e)
unfolding rsa_public_numbers drop
rsa_public_numbers-Element der alg alg_id bits inner modulus exponent n e unused is_der is_alg
      is_bits is_inner is_n is_e =
    rw (
      read_tlv-alone der _ is_der,
      read_tlv-first alg bits alg_id is_alg,
      read_tlv-last alg bits _ is_bits,
      read_tlv-alone inner _ is_inner,
      read_tlv-first modulus exponent n is_n,
      read_tlv-last modulus exponent e is_e,
    )
