-- ===== src/Resp/Format.antt =====
-- The text of an array of bulk strings, as the protocol describes it; the encoders of
-- internal/commands/commands.go are compared with it.
use redis_in_go.Prelude.{◌+◌, ◌≡◌, refl, ap, List, [], ◌∷◌, ◌++◌, length, append_assoc, arith}
use redis_in_go.Text.{Bytes, codes}
use redis_in_go.Text.Decimal.{format_nat}
use redis_in_go.Resp.{bulk, bulks, array_header}

unfoldable pub resp_string : Bytes → Bytes
resp_string s = codes "$" ++ (format_nat (length s) ++ (codes "\r\n" ++ (s ++ codes "\r\n")))

unfoldable pub resp_strings : List Bytes → Bytes
resp_strings [] = []
resp_strings (s ∷ ss) = resp_string s ++ resp_strings ss

unfoldable pub resp_array : List Bytes → Bytes
resp_array ss = codes "*" ++ (format_nat (length ss) ++ (codes "\r\n" ++ resp_strings ss))

pub bulk-resp_string : (s : Bytes) → bulk s ≡ resp_string s
unfolding bulk resp_string
bulk-resp_string s = refl

pub bulks-resp_strings : (ss : List Bytes) → bulks ss ≡ resp_strings ss
unfolding bulks resp_strings
bulks-resp_strings [] = refl
bulks-resp_strings (s ∷ ss) = rw (bulk-resp_string s, bulks-resp_strings ss)

pub array_header-resp_array :
    (s : Bytes) (ss : List Bytes)
    → array_header (length ss + 1) ++ (bulk s ++ bulks ss) ≡ resp_array (s ∷ ss)
unfolding array_header resp_array resp_strings
array_header-resp_array s ss =
    let n : length ss + 1 ≡ length (s ∷ ss) = omega arith in
    rw (n, bulk-resp_string s, bulks-resp_strings ss)
      (ap (λ t. codes "*" ++ t)
        (append_assoc (format_nat (length (s ∷ ss))) (codes "\r\n")
          (resp_string s ++ resp_strings ss)))
