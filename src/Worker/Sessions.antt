-- ===== src/Worker/Sessions.antt =====
-- A leased session is given back however the adapter's call ends.
use xingestionv.Prelude.{
  ◌≡◌, refl, Bool, true, none, some, List, [], ◌∷◌, String, arith, Bool-cases, inl, inr,
}
use xingestionv.Schema.{Sessions, ok}
use xingestionv.Table.{find, delete}
use xingestionv.Tokens.{
  TokenLease, is_lease, checkout_token, release_lease, record_success, mark_cooldown,
}
use xingestionv.Worker.{
  Settings, Outcome, returned, raised, CollectionBatch, CollectionRequest, session_fault,
}
use xingestionv.Worker.Session.{
  Turn, settle_session, with_lease, after_checkout, collect_with_session,
}

find-deleted {ℓ} : {A : Type ℓ} (p : A → Bool) (rs : List A) → find p (delete p rs) ≡ none
unfolding find delete
find-deleted p [] = refl
find-deleted p (r ∷ rs) = ground (arith, find-deleted p rs)

settled :
    (settings : Settings) (turn : Turn) (lease : TokenLease) (o : Outcome CollectionBatch)
    (s : Sessions)
    → find (is_lease lease) (settle_session settings turn lease o s).leases ≡ none
unfolding settle_session release_lease record_success mark_cooldown
settled settings turn lease (returned b) s = find-deleted (is_lease lease) s.leases
settled settings turn lease (raised r) s = elim (Bool-cases (session_fault r.failure_class)) [
  | inl y ↦ rw y (find-deleted (is_lease lease) s.leases)
  | inr n ↦ rw n (find-deleted (is_lease lease) s.leases)
]

-- Where _collect_with_session has checked out a session, its lease is gone from the pool when the
-- call ends: after a batch, after a failure of the session, and after any other exception, and
-- whatever other processes do to the pool meanwhile.
pub session_given_back :
    (settings : Settings) (turn : Turn) (request : CollectionRequest) (worker_id : String)
    (s s1 : Sessions) (lease : TokenLease)
    → turn.requires_session ≡ true
    → checkout_token s turn.locked worker_id settings.token_lease_seconds turn.leased_at
      ≡ (ok (some lease), s1)
    → find (is_lease lease) (collect_with_session settings turn request worker_id s).1.leases ≡ none
unfolding collect_with_session after_checkout with_lease
session_given_back settings turn request worker_id s s1 lease y e =
    rw (y, e)
      (settled settings turn lease (turn.answer request (some lease) s1).0
        (turn.answer request (some lease) s1).1)
