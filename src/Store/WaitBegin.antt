-- ===== src/Store/WaitBegin.antt =====
-- A client that begins to wait in `BLPop` keeps the invariant of the queues.
use redis_in_go.Prelude.{
  ℕ, ◌≡◌, ◌∙◌, ◌<◌, sym, refl, true, false, List, [], ◌∷◌, ◌++◌, ◌⊎◌, inl, inr, none, arith,
  if◌then◌else◌, Bool-cases,
}
use redis_in_go.Text.{Bytes, str_eq, str_eq_iff, str_eq_refl}
use redis_in_go.Table
use redis_in_go.Store.State.{Store}
use redis_in_go.Store.Channels.{waiters, enqueue, make_chan}
use redis_in_go.Store.Lists.{blpop, stored}
use redis_in_go.Store.WaitLaws.{In, Distinct, IsValid, same_queue, put_list-IsValid}

In-append : (c ch : ℕ) (q : List ℕ) → In c (q ++ ch ∷ []) → In c q ⊎ (c ≡ ch)
In-append c ch [] (inl e) = inr e
In-append c ch [] (inr i) = elim i [ ]
In-append c ch (d ∷ q) (inl e) = inl (inl e)
In-append c ch (d ∷ q) (inr i) = elim (In-append c ch q i) [ inl j ↦ inl (inr j) | inr e ↦ inr e ]

Distinct-append : (ch : ℕ) (q : List ℕ) → ¬ In ch q → Distinct q → Distinct (q ++ ch ∷ [])
Distinct-append ch [] n d = (λ i. i, tt)
Distinct-append ch (c ∷ q) n (nc, d) = (
  λ i. elim (In-append c ch q i) [ inl j ↦ nc j | inr e ↦ n (inl (sym e)) ],
  Distinct-append ch q (λ i. n (inr i)) d,
)

-- A client that finds no element waits on a new channel, at the end of its queue.
module _ (key : Bytes) (s : Store) (valid : IsValid s) where
  abbrev enqueued : Store
  enqueued = enqueue s.next_chan key (make_chan s).1

  not_made_yet : (k : Bytes) → ¬ In s.next_chan (waiters k s)
  not_made_yet k i = absurd (omega (arith, valid.made k s.next_chan i))

  waiters-enqueued :
      (k : Bytes)
      → waiters k enqueued
        ≡ (if str_eq key k then waiters key s ++ s.next_chan ∷ [] else waiters k s)
  unfolding enqueue make_chan
  waiters-enqueued k = Table.get_or-put s.blocking_clients key k _ []

  In-enqueued :
      (k : Bytes) (c : ℕ)
      → In c (waiters k enqueued)
      → In c (waiters k s) ⊎ ((c ≡ s.next_chan) × (str_eq key k ≡ true))
  In-enqueued k c i = elim (Bool-cases (str_eq key k)) [
    | inl t ↦ (elim (In-append c s.next_chan (waiters key s) (rw t at (rw waiters-enqueued at i))) [
      | inl j ↦ inl (rw (same_queue key k s t) j)
      | inr e ↦ inr (e, t)
    ])
    | inr f ↦ inl (rw f at (rw waiters-enqueued at i))
  ]

  made_enqueued : (c : ℕ) → (c < s.next_chan) ⊎ (c ≡ s.next_chan) → c < enqueued.next_chan
  unfolding enqueue make_chan
  made_enqueued c h = omega arith

  clear_enqueued : (c : ℕ) → (s.chans c ≡ none) ⊎ (c ≡ s.next_chan) → enqueued.chans c ≡ none
  unfolding enqueue make_chan
  clear_enqueued c (inl h) = ground arith
  clear_enqueued c (inr h) = ground arith

  not_apart : (j k : Bytes) → str_eq j k ≡ false → str_eq key j ≡ true → str_eq key k ≡ true → ⊥
  not_apart j k f t t' =
      let e : j ≡ k = sym ((str_eq_iff key j).0 t) ∙ (str_eq_iff key k).0 t' in
      let same : str_eq j k ≡ true = rw (← e) (str_eq_refl j) in cc

  enqueue-IsValid : IsValid enqueued
  enqueue-IsValid = record {
    made = λ k c i.
        made_enqueued c
          (elim (In-enqueued k c i) [ inl j ↦ inl (valid.made k c j) | inr e ↦ inr e.0 ]);
    clear = λ k c i.
        clear_enqueued c
          (elim (In-enqueued k c i) [ inl j ↦ inl (valid.clear k c j) | inr e ↦ inr e.0 ]);
    distinct = λ k. elim (Bool-cases (str_eq key k)) [
      | inl t ↦
          rw (waiters-enqueued, t)
            (Distinct-append s.next_chan (waiters key s) (not_made_yet key) (valid.distinct key))
      | inr f ↦ rw (waiters-enqueued, f) (valid.distinct k)
    ];
    apart = λ j k c f i i'. elim (In-enqueued j c i) [
      | inl x ↦ elim (In-enqueued k c i') [
        | inl y ↦ valid.apart j k c f x y
        | inr e ↦ not_made_yet j (rw e.0 at x)
      ]
      | inr e ↦ elim (In-enqueued k c i') [
        | inl y ↦ not_made_yet k (rw e.0 at y)
        | inr e' ↦ not_apart j k f e.1 e'.1
      ]
    ];
  }

-- `BLPop` keeps the invariant, whether it pops or waits.
pub blpop-IsValid : (key : Bytes) (s : Store) → IsValid s → IsValid (blpop key s).1
unfolding blpop make_chan
blpop-IsValid key s valid = go (stored key s) refl
  where
    go : (l : List Bytes) → stored key s ≡ l → IsValid (blpop key s).1
    go [] e = rw (e, blpop) (enqueue-IsValid key s valid)
    go (v ∷ vs) e = rw (e, blpop) (put_list-IsValid key vs s valid)
