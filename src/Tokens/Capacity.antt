-- ===== src/Tokens/Capacity.antt =====
-- The session pool never gives a session to more owners at once than its max_concurrency.
use xingestionv.Prelude.{
  ℕ, suc, ◌≤◌, ◌<◌, ◌≡◌, refl, ap, subst, Bool, true, ◌&&◌, Option, none, some, List, [], ◌∷◌,
  String, arith, Bool-cases, Option-cases, inl, inr, ◌==◌, ==_iff, str_eq, if◌then◌else◌,
}
use mathlib.Core.Option
use mathlib.Core.Option.{some-injective}
use xingestionv.Schema.{Sessions, Token, LeaseRow}
use xingestionv.Table.{find, select, update, delete, count, insert}
use xingestionv.Table.Laws.{count-insert, count-delete_le, count_mono, find-update}
use xingestionv.Table.Keyed.{Unique, update-Unique}
use xingestionv.Table.All.{All, Unique-All, order_by-All}
use xingestionv.Tokens.{
  live_on, available, expired, checked_out, new_lease, grant, candidate, first, rested_longer,
  checkout_token,
}

abbrev pub token_at : Sessions → ℕ → Option Token
token_at s i = find (λ t. t.id == i) s.tokens

-- At a time, no session has more live leases than its max_concurrency.
pub record Capacity (now : ℕ) (s : Sessions) : Type 0 where
  pub token_ids : Unique (λ t. t.id) s.tokens
  pub within :
      (i : ℕ) (t : Token)
      → token_at s i ≡ some t
      → count (live_on now i) s.leases ≤ t.max_concurrency

-- Leases only run out as time passes.
pub later-Capacity :
    (s : Sessions) (now later : ℕ) → now ≤ later → Capacity now s → Capacity later s
later-Capacity s now later h c = record {
  token_ids = c.token_ids;
  within = λ i t e.
      let fewer : count (live_on later i) s.leases ≤ count (live_on now i) s.leases =
        count_mono (live_on later i) (live_on now i) s.leases (λ l y. ground arith) in
      let here = c.within i t e in omega arith;
}

-- A lease given back leaves room.
module _ (now : ℕ) (s : Sessions) (p : LeaseRow → Bool) (c : Capacity now s) where
  pub delete-Capacity : Capacity now (record s { leases = delete p s.leases })
  delete-Capacity = record {
    token_ids = c.token_ids;
    within = λ i t e.
        let fewer : count (live_on now i) (delete p s.leases) ≤ count (live_on now i) s.leases =
          count-delete_le (live_on now i) p s.leases in
        let here = c.within i t e in omega arith;
  }

-- A change of the session rows that keeps their numbers and capacities.
module _ (now : ℕ) (s : Sessions) (p : Token → Bool) (f : Token → Token)
    (id : (t : Token) → (f t).id ≡ t.id)
    (cap : (t : Token) → (f t).max_concurrency ≡ t.max_concurrency) (c : Capacity now s) where
  row_cap :
      (o : Option Token) (t : Token) (n : ℕ)
      → Option.map (λ r. if p r then f r else r) o ≡ some t
      → ((r : Token) → o ≡ some r → n ≤ r.max_concurrency)
      → n ≤ t.max_concurrency
  row_cap none t n e h = absurd (ground arith)
  row_cap (some r) t n e h = ground (arith, h r refl, cap r)

  pub update-Capacity : Capacity now (record s { tokens = update p f s.tokens })
  update-Capacity = record {
    token_ids = update-Unique (λ t. t.id) p f s.tokens id c.token_ids;
    within = λ i t e.
        row_cap (token_at s i) t (count (live_on now i) s.leases)
          (rw (← find-update (λ t. t.id == i) p f s.tokens (λ a. ap (λ (k : ℕ). k == i) (id a))) e)
          (λ r k. c.within i r k);
  }

-- What the SELECT of checkout_token finds is an available session of the pool.
first-All {ℓ κ} :
    {A : Type ℓ} (P : A → Type κ) (xs : List A) (a : A) → All P xs → first xs ≡ some a → P a
unfolding first
first-All P [] a h e = absurd (ground arith)
first-All P (x ∷ xs) a h e = subst P (some-injective x a e) h.0

select-kept {ℓ κ} :
    {A : Type ℓ} (P : A → Type κ) (p : A → Bool) (xs : List A)
    → All P xs
    → All (λ x. P x × (p x ≡ true)) (select p xs)
unfolding select
select-kept P p [] h = tt
select-kept P p (x ∷ xs) h = elim (Bool-cases (p x)) [
  | inl y ↦ rw y ((h.0, y), select-kept P p xs h.1)
  | inr n ↦ rw n (select-kept P p xs h.1)
]

candidate-available :
    (s : Sessions) (locked : ℕ → Bool) (now : ℕ) (st : Token)
    → Unique (λ t. t.id) s.tokens
    → candidate s locked now ≡ some st
    → (token_at s st.id ≡ some st) × (available locked now s.leases st ≡ true)
unfolding candidate
candidate-available s locked now st u e =
    first-All (λ t. (token_at s t.id ≡ some t) × (available locked now s.leases t ≡ true)) _ st
      (order_by-All (λ t. (token_at s t.id ≡ some t) × (available locked now s.leases t ≡ true))
        rested_longer (select (available locked now s.leases) s.tokens)
        (select-kept (λ t. token_at s t.id ≡ some t) (available locked now s.leases) s.tokens
          (Unique-All (λ t. t.id) s.tokens u)))
      e

module _ (s : Sessions) (owner : String) (seconds now : ℕ) (st : Token) where
  insert-Capacity :
      (next : ℕ)
      → token_at s st.id ≡ some st
      → count (live_on now st.id) s.leases < st.max_concurrency
      → Capacity now s
      → Capacity now (record s {
        leases = insert (new_lease s.next_lease st.id owner seconds now) s.leases;
        next_lease = next;
      })
  insert-Capacity next here room c = record {
    token_ids = c.token_ids;
    within = λ i t e.
        let grown =
          count-insert (live_on now i) (new_lease s.next_lease st.id owner seconds now) s.leases in
        ground (arith, grown, c.within i t e, ==_iff st.id i, here, e, room);
  }

  grant-Capacity :
      (before : Sessions)
      → token_at s st.id ≡ some st
      → count (live_on now st.id) s.leases < st.max_concurrency
      → Capacity now before
      → Capacity now s
      → Capacity now (grant before s owner seconds now st).1
  unfolding grant
  grant-Capacity before here room c d =
      elim (Option-cases (find (λ l. l.token_id == st.id && str_eq l.lease_owner owner) s.leases)) [
        | inr (l, h) ↦ rw (h, grant) c
        | inl h ↦
            rw (h, grant)
              (update-Capacity now _ (λ t. t.id == st.id) (checked_out now) (λ t. refl) (λ t. refl)
                (insert-Capacity (suc s.next_lease) here room d))
      ]

pub checkout_token-Capacity :
    (s : Sessions) (locked : ℕ → Bool) (owner : String) (seconds now : ℕ)
    → Capacity now s
    → Capacity now (checkout_token s locked owner seconds now).1
unfolding checkout_token
checkout_token-Capacity s locked owner seconds now c =
    elim (Option-cases (candidate swept locked now)) [
      | inl h ↦ rw (h, checkout_token) swept-Capacity
      | inr (st, h) ↦
          let (here, free) = candidate-available swept locked now st c.token_ids h in
          rw (h, checkout_token)
            (grant-Capacity swept owner seconds now st s here (room st free) c swept-Capacity)
    ]
  where
    swept : Sessions
    swept = record s { leases = delete (expired now) s.leases }

    swept-Capacity : Capacity now swept
    swept-Capacity = delete-Capacity now s (expired now) c

    room :
        (st : Token)
        → available locked now swept.leases st ≡ true
        → count (live_on now st.id) swept.leases < st.max_concurrency
    room st free = ground arith
