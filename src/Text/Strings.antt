-- ===== src/Text/Strings.antt =====
-- Bytes, string literals, string comparison, `strings.ToLower` on ASCII and `strings.Split` at one
-- byte.
use Prim.Native.Char.{code}
use Prim.Native.String.{String}
use redis_in_go.Prelude.{
  ℕ, ◌+◌, ◌-◌, ◌≡◌, ◌≢◌, refl, ◌↔◌, Bool, true, false, ◌&&◌, List, [], ◌∷◌, ◌++◌, map, append_assoc,
  append-nil, arith, inl, inr, Bool-cases, ltb, leb, ◌==◌, ◌||◌, if◌then◌else◌,
}

abbrev pub Bytes : Type 0
Bytes = List ℕ

-- the bytes of an ASCII literal
abbrev pub codes : String → Bytes
codes String.[] = []
codes (String.◌∷◌ c s) = code c ∷ codes s

module _ {ℓ κ} {A : Type ℓ} (P : A → Type κ) where
  abbrev pub All : List A → Type κ
  All [] = Unit
  All (x ∷ xs) = P x × All xs

  pub All-append : (xs ys : List A) → All xs → All ys → All (xs ++ ys)
  All-append [] ys _ hy = hy
  All-append (x ∷ xs) ys (px, hx) hy = (px, All-append xs ys hx hy)

abbrev pub Lacks : ℕ → Bytes → Type 0
Lacks b = All (λ c. c ≢ b)

-- a == b
unfoldable pub str_eq : Bytes → Bytes → Bool
str_eq [] [] = true
str_eq (a ∷ s) (b ∷ t) = a == b && str_eq s t
str_eq _ _ = false

str_eq_sound : (s t : Bytes) → str_eq s t ≡ true → s ≡ t
unfolding str_eq
str_eq_sound [] [] h = refl
str_eq_sound [] (b ∷ t) h = cc
str_eq_sound (a ∷ s) [] h = cc
str_eq_sound (a ∷ s) (b ∷ t) h = ground (arith, str_eq_sound s t)

pub str_eq_refl : (s : Bytes) → str_eq s s ≡ true
unfolding str_eq
str_eq_refl [] = refl
str_eq_refl (a ∷ s) = ground (arith, str_eq_refl s)

pub str_eq_iff : (s t : Bytes) → (str_eq s t ≡ true) ↔ (s ≡ t)
str_eq_iff s t = (str_eq_sound s t, λ e. rw e (str_eq_refl t))

-- a < b, byte by byte
unfoldable pub str_less : Bytes → Bytes → Bool
str_less s [] = false
str_less [] (b ∷ t) = true
str_less (a ∷ s) (b ∷ t) = ltb a b || (a == b && str_less s t)

pub str_less_irrefl : (s : Bytes) → str_less s s ≡ false
unfolding str_less
str_less_irrefl [] = refl
str_less_irrefl (a ∷ s) = ground (arith, str_less_irrefl s)

pub str_less_trans :
    (s t u : Bytes) → str_less s t ≡ true → str_less t u ≡ true → str_less s u ≡ true
unfolding str_less
str_less_trans s [] u h k = cc
str_less_trans s (b ∷ t) [] h k = cc
str_less_trans [] (b ∷ t) (c ∷ u) h k = refl
str_less_trans (a ∷ s) (b ∷ t) (c ∷ u) h k = ground (arith, h, k, str_less_trans s t u)

-- of two different strings one is less
pub str_less_total : (s t : Bytes) → str_less s t ≡ false → str_less t s ≡ false → s ≡ t
unfolding str_less
str_less_total [] [] h k = refl
str_less_total [] (b ∷ t) h k = cc
str_less_total (a ∷ s) [] h k = cc
str_less_total (a ∷ s) (b ∷ t) h k = ground (arith, h, k, str_less_total s t)

lower : ℕ → ℕ
lower c = if leb b'A' c && leb c b'Z' then c + 32 else c

-- strings.ToLower, on ASCII text
unfoldable pub to_lower : Bytes → Bytes
unfolding lower
to_lower s = map lower s

upper : ℕ → ℕ
upper c = if leb b'a' c && leb c b'z' then c - 32 else c

-- strings.ToUpper, on ASCII text
unfoldable pub to_upper : Bytes → Bytes
unfolding upper
to_upper s = map upper s

split_from : ℕ → Bytes → Bytes → List Bytes
split_from sep [] cur = cur ∷ []
split_from sep (c ∷ s) cur = elim (c == sep) [
  | true ↦ cur ∷ split_from sep s []
  | false ↦ split_from sep s (cur ++ c ∷ [])
]

-- strings.Split(s, sep) at a separator of one byte
unfoldable pub split : Bytes → ℕ → List Bytes
unfolding split_from
split s sep = split_from sep s []

split_from-Lacks : (sep : ℕ) (s cur : Bytes) → Lacks sep s → split_from sep s cur ≡ (cur ++ s) ∷ []
unfolding split_from
split_from-Lacks sep [] cur h = rw append-nil
split_from-Lacks sep (c ∷ s) cur h =
    ground (arith, split_from-Lacks sep s (cur ++ c ∷ []) h.1, append_assoc cur (c ∷ []) s)

split_from-append :
    (sep : ℕ) (s t cur : Bytes)
    → Lacks sep s
    → split_from sep (s ++ sep ∷ t) cur ≡ (cur ++ s) ∷ split_from sep t []
unfolding split_from
split_from-append sep [] t cur h = rw append-nil (ground arith)
split_from-append sep (c ∷ s) t cur h =
    ground (arith, split_from-append sep s t (cur ++ c ∷ []) h.1, append_assoc cur (c ∷ []) s)

-- one separator between two texts without it
pub split_pair :
    (sep : ℕ) (s t : Bytes) → Lacks sep s → Lacks sep t → split (s ++ sep ∷ t) sep ≡ s ∷ t ∷ []
unfolding split
split_pair sep s t hs ht = rw (split_from-append sep s t [] hs, split_from-Lacks sep t [] ht)

pub All-map {ℓ κ μ} :
    {A : Type ℓ} (P : A → Type κ) (Q : A → Type μ) (xs : List A)
    → ((x : A) → P x → Q x)
    → All P xs
    → All Q xs
All-map P Q [] f h = tt
All-map P Q (x ∷ xs) f (p, ps) = (f x p, All-map P Q xs f ps)

split_from-All-Lacks :
    (sep : ℕ) (s cur : Bytes) → Lacks sep cur → All (Lacks sep) (split_from sep s cur)
unfolding split_from
split_from-All-Lacks sep [] cur h = (h, tt)
split_from-All-Lacks sep (c ∷ s) cur h = elim (Bool-cases (c == sep)) [
  | inl t ↦ rw (t, split_from) (h, split_from-All-Lacks sep s [] tt)
  | inr f ↦
      rw (f, split_from)
        (split_from-All-Lacks sep s (cur ++ c ∷ [])
          (All-append (λ x. x ≢ sep) cur (c ∷ []) h (ground arith, tt)))
]

-- no part holds the separator
pub split-All-Lacks : (s : Bytes) (sep : ℕ) → All (Lacks sep) (split s sep)
unfolding split
split-All-Lacks s sep = split_from-All-Lacks sep s [] tt
