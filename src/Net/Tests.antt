-- ===== src/Net/Tests.antt =====
-- The framing at concrete messages.
use rkvm.Prelude.{ℕ, ◌≡◌, refl, List, [], ◌∷◌, ◌++◌, Option, some, sym}
use rkvm.Net.Frames.{ok, encode, decode, decode-encode}

-- A serializer of byte strings.
abbrev write_bytes : List ℕ → Option (List ℕ)
write_bytes bytes = some bytes

abbrev read_bytes : List ℕ → Option (List ℕ)
read_bytes bytes = some bytes

some_injective : (xs ys : List ℕ) → write_bytes xs ≡ some ys → read_bytes ys ≡ some xs
some_injective xs ys h = sym h

decode-encode_example : decode read_bytes ((0 ∷ 2 ∷ 5 ∷ 7 ∷ []) ++ 9 ∷ []) ≡ ok (5 ∷ 7 ∷ [], 9 ∷ [])
unfolding encode
decode-encode_example =
    decode-encode write_bytes read_bytes some_injective (5 ∷ 7 ∷ []) (0 ∷ 2 ∷ 5 ∷ 7 ∷ []) (9 ∷ [])
      refl
