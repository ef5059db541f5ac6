-- ===== src/Auth/Laws.antt =====
-- Proofs about the passwords of internal/auth/auth.go.
use redis_in_go.Prelude.{
  ℕ, ◌/◌, ◌%◌, ◌<◌, ◌≡◌, refl, ap₂, ap, Bool, true, false, ◌||◌, List, [], ◌∷◌, ◌++◌, none, arith,
}
use redis_in_go.Text.{Bytes, codes, str_eq, str_eq_iff, All}
use redis_in_go.Table
use redis_in_go.Auth.{
  User, new_user, hex_digit, encode_to_string, any_equal, generate_sha, add_password, authorize,
  authenticate_connection, is_set,
}

abbrev pub IsBytes : Bytes → Type 0
IsBytes = All (λ b. b < 256)

hex_digit_injective : (a b : ℕ) → a < 16 → b < 16 → hex_digit a ≡ hex_digit b → a ≡ b
unfolding hex_digit
hex_digit_injective a b ha hb h = ground arith

byte_of_halves : (a b : ℕ) → a / 16 ≡ b / 16 → a % 16 ≡ b % 16 → a ≡ b
byte_of_halves a b h l = omega arith

encode_to_string_injective :
    (s t : Bytes) → IsBytes s → IsBytes t → encode_to_string s ≡ encode_to_string t → s ≡ t
unfolding encode_to_string
encode_to_string_injective [] [] hs ht h = refl
encode_to_string_injective [] (b ∷ t) hs ht h = cc
encode_to_string_injective (a ∷ s) [] hs ht h = cc
encode_to_string_injective (a ∷ s) (b ∷ t) (ha, hs) (hb, ht) h =
    let high : hex_digit (a / 16) ≡ hex_digit (b / 16) = cc in
    let low : hex_digit (a % 16) ≡ hex_digit (b % 16) = cc in
    let rest : encode_to_string s ≡ encode_to_string t = cc in
    let same : a ≡ b =
      byte_of_halves a b (hex_digit_injective (a / 16) (b / 16) (omega arith) (omega arith) high)
        (hex_digit_injective (a % 16) (b % 16) (omega arith) (omega arith) low) in
    ap₂ (λ x xs. x ∷ xs) same (encode_to_string_injective s t hs ht rest)

any_equal-append :
    (x : Bytes) (ps qs : List Bytes) → any_equal x (ps ++ qs) ≡ (any_equal x ps || any_equal x qs)
unfolding any_equal
any_equal-append x [] qs = refl
any_equal-append x (p ∷ ps) qs = ground (arith, any_equal-append x ps qs)

abbrev pub contains : Bytes → List Bytes → Bool
contains p [] = false
contains p (q ∷ qs) = str_eq q p || contains p qs

or_shuffle : (a b c : Bool) → (a || (b || false) || c) ≡ (a || (b || c))
or_shuffle a b c = ground arith

abbrev pub is_empty : List Bytes → Bool
is_empty [] = true
is_empty (q ∷ qs) = false

module _ (sum256 : Bytes → Bytes) where
  unfoldable pub add_passwords : List Bytes → User → User
  add_passwords [] u = u
  add_passwords (q ∷ qs) u = add_passwords qs (add_password sum256 q u)

  str_eq-generate_sha :
      (p q : Bytes)
      → ((s : Bytes) → IsBytes (sum256 s))
      → (sum256 q ≡ sum256 p → q ≡ p)
      → str_eq (generate_sha sum256 q) (generate_sha sum256 p) ≡ str_eq q p
  unfolding generate_sha
  str_eq-generate_sha p q bytes free =
      let back : encode_to_string (sum256 q) ≡ encode_to_string (sum256 p) → q ≡ p =
        λ e. free (encode_to_string_injective (sum256 q) (sum256 p) (bytes q) (bytes p) e) in
      let forth : q ≡ p → encode_to_string (sum256 q) ≡ encode_to_string (sum256 p) =
        λ e. ap (λ s. encode_to_string (sum256 s)) e in
      ground (
        arith,
        str_eq_iff (encode_to_string (sum256 q)) (encode_to_string (sum256 p)),
        str_eq_iff q p,
        back,
        forth,
      )

  authorize-add_passwords :
      (p : Bytes) (qs : List Bytes) (u : User)
      → ((s : Bytes) → IsBytes (sum256 s))
      → All (λ q. sum256 q ≡ sum256 p → q ≡ p) qs
      → authorize sum256 p (add_passwords qs u) ≡ (authorize sum256 p u || contains p qs)
  unfolding add_passwords authorize add_password any_equal
  authorize-add_passwords p [] u bytes free = ground arith
  authorize-add_passwords p (q ∷ qs) u bytes (fq, free) =
      rw
        (
          authorize-add_passwords p qs (add_password sum256 q u) bytes free,
          any_equal-append (generate_sha sum256 p) u.passwords (generate_sha sum256 q ∷ []),
          str_eq-generate_sha p q bytes fq,
        )
        (or_shuffle (any_equal (generate_sha sum256 p) u.passwords) (str_eq q p) (contains p qs))

  add_passwords-flags :
      (qs : List Bytes) (u : User)
      → Table.get u.flags (codes "nopass") ≡ none
      → Table.get (add_passwords qs u).flags (codes "nopass") ≡ none
  unfolding add_passwords add_password
  add_passwords-flags [] u h = h
  add_passwords-flags (q ∷ qs) u h =
      add_passwords-flags qs (add_password sum256 q u)
        (Table.get-remove_self u.flags (codes "nopass"))

  connection_closed :
      (u : User)
      → Table.get u.flags (codes "nopass") ≡ none
      → authenticate_connection ((codes "default", u) ∷ []) ≡ false
  unfolding authenticate_connection Table.get str_eq is_set
  connection_closed u h = ap is_set h

  connection_open :
      (qs : List Bytes)
      → authenticate_connection ((codes "default", add_passwords qs new_user) ∷ []) ≡ is_empty qs
  unfolding authenticate_connection add_passwords add_password Table.get str_eq
  connection_open [] = refl
  connection_open (q ∷ qs) = connection_closed (add_passwords qs (add_password sum256 q new_user)) (
      add_passwords-flags qs (add_password sum256 q new_user)
        (Table.get-remove_self new_user.flags (codes "nopass")))

  -- The default user, after some passwords have been added to it. Provided that the hash is a text of
  -- bytes and that none of these passwords has the hash of another one that is tried, a password is
  -- accepted exactly if it was added; and a new connection needs none exactly if none was added.
  pub passwords_decide :
      (p : Bytes) (qs : List Bytes)
      → ((s : Bytes) → IsBytes (sum256 s))
      → All (λ q. sum256 q ≡ sum256 p → q ≡ p) qs
      → (authorize sum256 p (add_passwords qs new_user) ≡ contains p qs)
        × (authenticate_connection ((codes "default", add_passwords qs new_user) ∷ [])
            ≡ is_empty qs)
  unfolding authorize any_equal
  passwords_decide p qs bytes free =
      (authorize-add_passwords p qs new_user bytes free, connection_open qs)
