-- ===== src/Base64/Tests.antt =====
-- Runs of the encoder and the decoder.
use agent_identity_demos.Prelude.{◌≡◌, refl, true, false, none, arith, some, nat_eq}
use agent_identity_demos.Prelude.Text.{encode}
use agent_identity_demos.Base64.RoundTrip
use agent_identity_demos.Base64.{standard, b64encode, b64url, b64decode, pad_segment}

encode_hello : b64encode standard (encode "hello?>") ≡ "aGVsbG8/Pg=="
unfolding b64encode encode
encode_hello = refl

url_hello : b64url (encode "hello?>") ≡ "aGVsbG8_Pg"
unfolding b64url encode nat_eq
url_hello = refl

decode_hello : b64decode true (pad_segment "aGVsbG8_Pg") ≡ some (encode "hello?>")
unfolding b64decode encode pad_segment nat_eq
decode_hello = refl

-- A stray character is passed over; an incomplete group is not.
decode_stray : b64decode false "aGV\nsbG8=" ≡ some (encode "hello")
unfolding b64decode encode nat_eq
decode_stray = refl

decode_short : b64decode false "aGVsb" ≡ none
unfolding b64decode nat_eq
decode_short = refl

b64decode-b64url_example :
    b64decode true (pad_segment (b64url (encode "hello?>"))) ≡ some (encode "hello?>")
b64decode-b64url_example = RoundTrip.b64decode-b64url (encode "hello?>") (
    unfold encode in
    (
      omega arith,
      (omega arith, (omega arith, (omega arith, (omega arith, (omega arith, (omega arith, tt)))))),
    ))
