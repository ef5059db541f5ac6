-- ===== src/Text/Scan.antt =====
-- The functions of Go's `strings` package that look into a line, on ASCII text.
use redis_in_go.Prelude.{
  ℕ, ◌++◌, ◌≡◌, refl, Bool, true, false, ◌&&◌, not, ◌||◌, List, [], ◌∷◌, arith, append_assoc,
  append-nil, leb, ◌==◌, if◌then◌else◌,
}
use redis_in_go.Text.{Bytes, All, Lacks}

-- strings.HasPrefix(s, prefix)
unfoldable pub has_prefix : Bytes → Bytes → Bool
has_prefix s [] = true
has_prefix [] (b ∷ p) = false
has_prefix (a ∷ s) (b ∷ p) = a == b && has_prefix s p

-- strings.Contains(s, sub)
unfoldable pub has_substring : Bytes → Bytes → Bool
has_substring [] sub = has_prefix [] sub
has_substring (c ∷ s) sub = has_prefix (c ∷ s) sub || has_substring s sub

pub has_substring-append :
    (s t sub : Bytes) → has_substring t sub ≡ true → has_substring (s ++ t) sub ≡ true
unfolding has_substring
has_substring-append [] t sub h = h
has_substring-append (c ∷ s) t sub h = ground (arith, has_substring-append s t sub h)

-- unicode.IsSpace
unfoldable pub is_space : ℕ → Bool
is_space c = c == 32 || (leb 9 c && leb c 13)

abbrev pub Spaceless : Bytes → Type 0
Spaceless = All (λ c. is_space c ≡ false)

end_field : Bytes → List Bytes → List Bytes
end_field [] rest = rest
end_field (c ∷ s) rest = (c ∷ s) ∷ rest

fields_from : Bytes → Bytes → List Bytes
unfolding end_field
fields_from [] cur = end_field cur []
fields_from (c ∷ s) cur = elim (is_space c) [
  | true ↦ end_field cur (fields_from s [])
  | false ↦ fields_from s (cur ++ c ∷ [])
]

-- strings.Fields(s)
unfoldable pub fields : Bytes → List Bytes
unfolding fields_from
fields s = fields_from s []

fields_from-append :
    (w s cur : Bytes) → Spaceless w → fields_from (w ++ s) cur ≡ fields_from s (cur ++ w)
unfolding fields_from
fields_from-append [] s cur h = rw append-nil
fields_from-append (c ∷ w) s cur h =
    ground (arith, h.0, fields_from-append w s (cur ++ c ∷ []) h.1, append_assoc cur (c ∷ []) w)

end_field-append :
    (s t : Bytes) (c : ℕ) (rest : List Bytes) → end_field (s ++ c ∷ t) rest ≡ (s ++ c ∷ t) ∷ rest
unfolding end_field
end_field-append [] t c rest = refl
end_field-append (b ∷ s) t c rest = refl

-- a word that a space follows is a field
pub fields-word :
    (w v s : Bytes) (c : ℕ)
    → Spaceless (w ++ c ∷ v)
    → fields ((w ++ c ∷ v) ++ 32 ∷ s) ≡ (w ++ c ∷ v) ∷ fields s
unfolding fields fields_from is_space
fields-word w v s c h =
    rw (fields_from-append (w ++ c ∷ v) (32 ∷ s) [] h) (end_field-append w v c (fields s))

-- strings.TrimRight with the bytes that `cut` holds of
unfoldable pub trim_right : (ℕ → Bool) → Bytes → Bytes
trim_right cut [] = []
trim_right cut (c ∷ s) = elim (trim_right cut s) [
  | [] ↦ if cut c then [] else c ∷ []
  | d ∷ t ↦ c ∷ d ∷ t
]

unfoldable pub trim_left : (ℕ → Bool) → Bytes → Bytes
trim_left cut [] = []
trim_left cut (c ∷ s) = elim (cut c) [ true ↦ trim_left cut s | false ↦ c ∷ s ]

-- strings.TrimSpace
unfoldable pub trim_space : Bytes → Bytes
unfolding trim_left trim_right
trim_space s = trim_right is_space (trim_left is_space s)

-- what no byte of is cut off stays
pub trim_right-append :
    (cut : ℕ → Bool) (s t : Bytes)
    → All (λ c. cut c ≡ false) s
    → trim_right cut (s ++ t) ≡ s ++ trim_right cut t
unfolding trim_right
trim_right-append cut [] t h = refl
trim_right-append cut (c ∷ s) t h =
    rw (trim_right-append cut s t h.1, trim_right) (kept c (s ++ trim_right cut t) h.0)
  where
    kept :
        (c : ℕ) (s : Bytes)
        → cut c ≡ false
        → (elim s [ [] ↦ if cut c then [] else c ∷ [] | d ∷ t ↦ c ∷ d ∷ t ]) ≡ c ∷ s
    kept c [] h = rw h refl
    kept c (d ∷ t) h = refl

-- whether the byte is not in a text
unfoldable pub lacks : ℕ → Bytes → Bool
lacks b [] = true
lacks b (c ∷ s) = not (c == b) && lacks b s

pub lacks-Lacks : (b : ℕ) (s : Bytes) → lacks b s ≡ true → Lacks b s
unfolding lacks
lacks-Lacks b [] h = tt
lacks-Lacks b (c ∷ s) h = (ground arith, lacks-Lacks b s (ground arith))
