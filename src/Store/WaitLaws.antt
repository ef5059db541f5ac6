-- ===== src/Store/WaitLaws.antt =====
-- The clients that wait in `BLPop`: an invariant of the queues and channels, kept by every list
-- command, under which no push ever blocks on a full channel.
use redis_in_go.Prelude.{
  ℕ, ◌≡◌, ◌≢◌, ◌<◌, ◌∙◌, ap, refl, sym, true, false, List, [], ◌∷◌, ◌++◌, ◌⊎◌, inl, inr, none, done,
  arith, Bool-cases, ◌==◌,
}
use redis_in_go.Text.{Bytes, str_eq, str_eq_iff}
use redis_in_go.Table
use redis_in_go.Store.State.{Store, init}
use redis_in_go.Store.Channels.{waiters}
use redis_in_go.Store.Lists.{rpush, lpush, put_list}
use redis_in_go.Store.PushLaws.{Served, rpush_serves, lpush_serves, rpush_appends, lpush_prepends}

abbrev pub In : ℕ → List ℕ → Type 0
In c [] = ⊥
In c (d ∷ ds) = (c ≡ d) ⊎ In c ds

abbrev pub Distinct : List ℕ → Type 0
Distinct [] = Unit
Distinct (c ∷ cs) = (¬ In c cs) × Distinct cs

-- A channel in a queue has been made and holds nothing, and it stands in one place of one queue.
pub record IsValid (s : Store) : Type 0 where
  pub made : (k : Bytes) (c : ℕ) → In c (waiters k s) → c < s.next_chan
  pub clear : (k : Bytes) (c : ℕ) → In c (waiters k s) → s.chans c ≡ none
  pub distinct : (k : Bytes) → Distinct (waiters k s)
  pub apart : (j k : Bytes) (c : ℕ) → str_eq j k ≡ false → In c (waiters j s) → ¬ In c (waiters k s)

neq_test : (c d : ℕ) → c ≢ d → (c == d) ≡ false
neq_test c d h = ground arith

pub same_queue : (key k : Bytes) (s : Store) → str_eq key k ≡ true → waiters k s ≡ waiters key s
same_queue key k s t = ap (λ x. waiters x s) (sym ((str_eq_iff key k).0 t))

module _ (key v : Bytes) (ch : ℕ) (rest : List ℕ) (l : List Bytes) (s s' : Store)
    (valid : IsValid s) (q : waiters key s ≡ ch ∷ rest) (served : Served key ch rest v l s s') where
  rest-ne : (c : ℕ) → In c rest → c ≢ ch
  rest-ne c i e = (rw q at (valid.distinct key)).0 (rw e at i)

  -- The queues have lost the served channel and nothing else.
  queue_of : (k : Bytes) (c : ℕ) → In c (waiters k s') → In c (waiters k s) × (c ≢ ch)
  queue_of k c i = elim (Bool-cases (str_eq key k)) [
    | inl t ↦
        (let i' : In c rest = rw (served.queue) at (rw (same_queue key k s' t) at i) in
          (rw (same_queue key k s t, q) (inr i'), rest-ne c i'))
    | inr f ↦
        (let i' : In c (waiters k s) = rw (served.other_queues k f) at i in
          (i', λ e. valid.apart key k ch f (rw q (inl refl)) (rw e at i')))
  ]

  Served-IsValid : IsValid s'
  Served-IsValid = record {
    made = λ k c i. rw (served.next_kept) (valid.made k c (queue_of k c i).0);
    clear = λ k c i.
        served.other_chans c (neq_test c ch (queue_of k c i).1)
        ∙ valid.clear k c (queue_of k c i).0;
    distinct = λ k. elim (Bool-cases (str_eq key k)) [
      | inl t ↦ rw (same_queue key k s' t, served.queue) ((rw q at (valid.distinct key)).1)
      | inr f ↦ rw (served.other_queues k f) (valid.distinct k)
    ];
    apart = λ j k c f i i'. valid.apart j k c f (queue_of j c i).0 (queue_of k c i').0;
  }

pub put_list-IsValid :
    (key : Bytes) (l : List Bytes) (s : Store) → IsValid s → IsValid (put_list key l s)
put_list-IsValid key l s v = record {
  made = v.made;
  clear = v.clear;
  distinct = v.distinct;
  apart = v.apart;
}

pub init-IsValid : IsValid init
unfolding Table.get_or Table.get
init-IsValid = record {
  made = λ k c i. absurd i;
  clear = λ k c i. refl;
  distinct = λ k. tt;
  apart = λ j k c f i i'. i;
}

-- In a valid state an RPUSH of at least one value returns, and leaves a valid state.
pub rpush_total :
    (key v : Bytes) (vs : List Bytes) (s : Store)
    → IsValid s
    → (n : ℕ) × (s' : Store) × (rpush key (v ∷ vs) s ≡ done (n, s')) × IsValid s'
rpush_total key v vs s valid = go (waiters key s) refl
  where
    go :
        (q : List ℕ)
        → waiters key s ≡ q
        → (n : ℕ) × (s' : Store) × (rpush key (v ∷ vs) s ≡ done (n, s')) × IsValid s'
    go [] e = (_, _, rpush_appends key (v ∷ vs) s e, put_list-IsValid key _ s valid)
    go (ch ∷ rest) e =
        let (s', r, served) =
          rpush_serves key v vs ch rest s e (valid.clear key ch (rw e (inl refl))) in
        (_, s', r, Served-IsValid key v ch rest _ s s' valid e served)

-- The same of LPUSH.
pub lpush_total :
    (key v : Bytes) (vs : List Bytes) (s : Store)
    → IsValid s
    → (n : ℕ) × (s' : Store) × (lpush key (vs ++ v ∷ []) s ≡ done (n, s')) × IsValid s'
lpush_total key v vs s valid = go (waiters key s) refl
  where
    go :
        (q : List ℕ)
        → waiters key s ≡ q
        → (n : ℕ) × (s' : Store) × (lpush key (vs ++ v ∷ []) s ≡ done (n, s')) × IsValid s'
    go [] e = (_, _, lpush_prepends key (vs ++ v ∷ []) s e, put_list-IsValid key _ s valid)
    go (ch ∷ rest) e =
        let (s', r, served) =
          lpush_serves key v vs ch rest s e (valid.clear key ch (rw e (inl refl))) in
        (_, s', r, Served-IsValid key v ch rest _ s s' valid e served)
