-- ===== src/Store/Histories.antt =====
-- The strings of a store over any history of writes, loads and reads, against one cell for each key.
use redis_in_go.Prelude.{
  not, ℕ, zero, suc, ◌+◌, ◌*◌, ◌≡◌, refl, ap, ◌∙◌, Bool, true, false, List, [], ◌∷◌, Option, none,
  some, arith, leb, if◌then◌else◌, Bool-cases, inl, inr,
}
use redis_in_go.Prelude.Int.{ℤ, pos, negsuc, pos_part, ltb_ℤ}
use redis_in_go.Text.{Bytes, str_eq, str_eq_iff}
use redis_in_go.Table
use redis_in_go.Store.State.{Entry, Store, init}
use redis_in_go.Store.Strings.{
  set, set_entry, set_with_absolute_expiry, absolute_entry, get, get_entry, expired, deadline,
  GetResult, found, get_error, missing_key, expired_key,
}

pub data Event : Type 0 where
  set_at : ℕ → Bytes → Bytes → ℤ → Event
  loaded : Bytes → Bytes → ℤ → Event
  get_at : ℕ → Bytes → Event

-- the store after a history, whose last event stands first
abbrev pub run : List Event → Store
run [] = init
run (set_at now key value ttl ∷ es) = set now key value ttl (run es)
run (loaded key value ms ∷ es) = set_with_absolute_expiry key value ms (run es)
run (get_at t key ∷ es) = (get t key (run es)).1

-- What is known of a key: a text, and the last instant at which it is there, if there is one.
pub record Cell : Type 0 where
  pub text : Bytes
  pub last_instant : Option ℕ

abbrev pub instant_of : Option Cell → Option ℕ
instant_of none = none
instant_of (some c) = c.last_instant

-- A positive time to live counts from the write; with any other the instant stays.
abbrev pub instant_after : ℕ → ℤ → Option ℕ → Option ℕ
instant_after now (pos zero) old = old
instant_after now (pos (suc n)) old = some (now + suc n)
instant_after now (negsuc n) old = old

-- milliseconds, of which a positive number is an instant
abbrev pub instant_in_ms : ℤ → Option ℕ
instant_in_ms (pos zero) = none
instant_in_ms (pos (suc n)) = some (suc n * 1000000)
instant_in_ms (negsuc n) = none

abbrev pub is_over : ℕ → Option ℕ → Bool
is_over t none = false
is_over t (some d) = not (leb t d)

-- A read drops what is over.
abbrev pub kept : ℕ → Option Cell → Option Cell
kept t none = none
kept t (some c) = if is_over t c.last_instant then none else some c

abbrev pub cell : List Event → Bytes → Option Cell
cell [] key = none
cell (set_at now k value ttl ∷ es) key = elim (str_eq k key) [
  | true ↦
      some
        (record { text = value; last_instant = instant_after now ttl (instant_of (cell es key)) })
  | false ↦ cell es key
]
cell (loaded k value ms ∷ es) key = elim (str_eq k key) [
  | true ↦ some (record { text = value; last_instant = instant_in_ms ms })
  | false ↦ cell es key
]
cell (get_at t k ∷ es) key = elim (str_eq k key) [
  | true ↦ kept t (cell es key)
  | false ↦ cell es key
]

abbrev pub answer : ℕ → Option Cell → GetResult
answer t none = get_error missing_key
answer t (some c) = if is_over t c.last_instant then get_error expired_key else found c.text

abbrev view : Option Entry → Option Cell
view none = none
view (some e) = some (record { text = e.value; last_instant = e.expires_at })

deadline-instant_after :
    (now : ℕ) (ttl : ℤ) (old : Option ℕ) → deadline now ttl old ≡ instant_after now ttl old
deadline-instant_after now (pos zero) old = ground arith
deadline-instant_after now (pos (suc n)) old = ground arith
deadline-instant_after now (negsuc n) old = ground arith

ms_instant :
    (ms : ℤ) → (if ltb_ℤ (pos 0) ms then some (pos_part ms * 1000000) else none) ≡ instant_in_ms ms
ms_instant (pos zero) = ground arith
ms_instant (pos (suc n)) = ground arith
ms_instant (negsuc n) = ground arith

expired-is_over : (t : ℕ) (d : Option ℕ) → expired t d ≡ is_over t d
unfolding expired
expired-is_over t none = refl
expired-is_over t (some d) = ground arith

view-if :
    (b : Bool) (e o : Option Entry)
    → view (if b then e else o) ≡ (elim b [ true ↦ view e | false ↦ view o ])
view-if true e o = refl
view-if false e o = refl

elim-cong :
    (b : Bool) {x x' y y' : Option Cell}
    → (b ≡ true → x ≡ x')
    → y ≡ y'
    → (elim b [ true ↦ x | false ↦ y ]) ≡ (elim b [ true ↦ x' | false ↦ y' ])
elim-cong true f e = f refl
elim-cong false f e = e

view-put :
    (m : Table.Table Entry) (k key : Bytes) (e : Entry)
    → view (Table.get (Table.put m k e) key)
      ≡ (elim (str_eq k key) [ true ↦ view (some e) | false ↦ view (Table.get m key) ])
view-put m k key e =
    ap view (Table.get-put m k key e) ∙ view-if (str_eq k key) (some e) (Table.get m key)

view-remove :
    (m : Table.Table Entry) (k key : Bytes)
    → view (Table.get (Table.remove m k) key)
      ≡ (elim (str_eq k key) [ true ↦ none | false ↦ view (Table.get m key) ])
view-remove m k key =
    ap view (Table.get-remove m k key) ∙ view-if (str_eq k key) none (Table.get m key)

-- what is known of a key, looked up under an equal one
view_at :
    (m : Table.Table Entry) (k key : Bytes) (c : Option Cell)
    → view (Table.get m key) ≡ c
    → str_eq k key ≡ true
    → view (Table.get m k) ≡ c
view_at m k key c h t = rw ((str_eq_iff k key).0 t) h

view-set_entry :
    (now : ℕ) (value : Bytes) (ttl : ℤ) (o : Option Entry)
    → view (some (set_entry now value ttl o))
      ≡ some (record { text = value; last_instant = instant_after now ttl (instant_of (view o)) })
unfolding set_entry
view-set_entry now value ttl none = rw (deadline-instant_after now ttl none)
view-set_entry now value ttl (some e) = rw (deadline-instant_after now ttl e.expires_at)

view-set :
    (now : ℕ) (k key value : Bytes) (ttl : ℤ) (s : Store) (c : Option Cell)
    → view (Table.get s.items key) ≡ c
    → view (Table.get (set now k value ttl s).items key) ≡ (elim (str_eq k key) [
      | true ↦ some (record { text = value; last_instant = instant_after now ttl (instant_of c) })
      | false ↦ c
    ])
unfolding set
view-set now k key value ttl s c h =
    view-put s.items k key (set_entry now value ttl (Table.get s.items k))
    ∙ elim-cong (str_eq k key)
        (λ t.
          view-set_entry now value ttl (Table.get s.items k)
          ∙ ap
              (λ o.
                some (record { text = value; last_instant = instant_after now ttl (instant_of o) }))
              (view_at s.items k key c h t))
        h

view-absolute_entry :
    (value : Bytes) (d : Option ℕ) (o : Option Entry)
    → view (some (absolute_entry value d o)) ≡ some (record { text = value; last_instant = d })
unfolding absolute_entry
view-absolute_entry value d none = refl
view-absolute_entry value d (some e) = refl

view-loaded :
    (k key value : Bytes) (ms : ℤ) (s : Store) (c : Option Cell)
    → view (Table.get s.items key) ≡ c
    → view (Table.get (set_with_absolute_expiry k value ms s).items key) ≡ (elim (str_eq k key) [
      | true ↦ some (record { text = value; last_instant = instant_in_ms ms })
      | false ↦ c
    ])
unfolding set_with_absolute_expiry
view-loaded k key value ms s c h =
    let d = if ltb_ℤ (pos 0) ms then some (pos_part ms * 1000000) else none in
    view-put s.items k key (absolute_entry value d (Table.get s.items k))
    ∙ elim-cong (str_eq k key)
        (λ t.
          view-absolute_entry value d (Table.get s.items k)
          ∙ ap (λ at. some (record { text = value; last_instant = at })) (ms_instant ms))
        h

-- the items after a read of `k`, where `found` stands
view-get_entry :
    (t : ℕ) (k key : Bytes) (o : Option Entry) (s : Store)
    → view (Table.get (get_entry t k o s).1.items key) ≡ (
        if is_over t (instant_of (view o))
        then view (Table.get (Table.remove s.items k) key)
        else view (Table.get s.items key))
unfolding get_entry
view-get_entry t k key none s = refl
view-get_entry t k key (some e) s =
    rw (expired-is_over t e.expires_at) (elim (Bool-cases (is_over t e.expires_at)) [
      | inl over ↦ rw over refl
      | inr not_over ↦ rw not_over refl
    ])

kept-if : (t : ℕ) (c : Option Cell) → (if is_over t (instant_of c) then none else c) ≡ kept t c
kept-if t none = refl
kept-if t (some c) = refl

kept_lem :
    (t : ℕ) (b : Bool) (c here : Option Cell)
    → (b ≡ true → here ≡ c)
    → (if is_over t (instant_of here) then (elim b [ true ↦ none | false ↦ c ]) else c)
      ≡ (elim b [ true ↦ kept t c | false ↦ c ])
kept_lem t true c here f = rw (f refl) (kept-if t c)
kept_lem t false c here f = elim (Bool-cases (is_over t (instant_of here))) [
  | inl over ↦ rw over refl
  | inr not_over ↦ rw not_over refl
]

view-get :
    (t : ℕ) (k key : Bytes) (s : Store) (c : Option Cell)
    → view (Table.get s.items key) ≡ c
    → view (Table.get (get t k s).1.items key)
      ≡ (elim (str_eq k key) [ true ↦ kept t c | false ↦ c ])
unfolding get
view-get t k key s c h =
    view-get_entry t k key (Table.get s.items k) s
    ∙ rw (view-remove s.items k key ∙ elim-cong (str_eq k key) (λ t. refl) h, h)
        (kept_lem t (str_eq k key) c (view (Table.get s.items k)) (view_at s.items k key c h))

get-answer :
    (t : ℕ) (key : Bytes) (s : Store) → (get t key s).0 ≡ answer t (view (Table.get s.items key))
unfolding get get_entry
get-answer t key s = get_entry-answer (Table.get s.items key)
  where
    get_entry-answer : (o : Option Entry) → (get_entry t key o s).0 ≡ answer t (view o)
    get_entry-answer none = refl
    get_entry-answer (some e) =
        rw (expired-is_over t e.expires_at) (elim (Bool-cases (is_over t e.expires_at)) [
          | inl over ↦ rw over refl
          | inr not_over ↦ rw not_over refl
        ])

view-run : (es : List Event) (key : Bytes) → view (Table.get (run es).items key) ≡ cell es key
unfolding Table.get
view-run [] key = refl
view-run (set_at now k value ttl ∷ es) key =
    view-set now k key value ttl (run es) (cell es key) (view-run es key)
view-run (loaded k value ms ∷ es) key =
    view-loaded k key value ms (run es) (cell es key) (view-run es key)
view-run (get_at t k ∷ es) key = view-get t k key (run es) (cell es key) (view-run es key)

-- After any history of SETs, loads from an RDB file and GETs, of any keys and at any times, a GET
-- answers what the cell of its key says. A SET gives the cell its text, and with a positive time to
-- live the instant that lies so far behind the write, else the instant stays; a load gives text and
-- instant; a GET drops the cell if its instant is over. The answer is the text up to the instant, that
-- one included, then the error for an expired key, and the error for a missing key if there is no cell.
pub get-run :
    (es : List Event) (t : ℕ) (key : Bytes) → (get t key (run es)).0 ≡ answer t (cell es key)
get-run es t key = get-answer t key (run es) ∙ ap (answer t) (view-run es key)
