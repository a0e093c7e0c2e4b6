-- ===== src/Thread/Tracks.antt =====
-- The ownership maps against an account of what each order id still has: how `forget_order`,
-- `route_fill` and the recording of a new order keep them in step.
use order_matching_machine.Prelude.{
  ℕ, ◌≡◌, refl, ap, Bool, true, false, not, Bool-cases, Option-cases, inl, inr, Option, none, some,
  arith, ◌==◌, if◌then◌else◌,
}
use order_matching_machine.Gateway.Session.{member, remove, member-remove}
use order_matching_machine.Thread.State.{erase, Exchange}
use order_matching_machine.Thread.Routing.{put_set, forget_owned, forget_owner, forget_order}

-- An id of which nothing is left is not on record.
abbrev pub positive : ℕ → Option ℕ
positive n = if n == 0 then none else some n

abbrev pub is_some : {A : Type 0} → Option A → Bool
is_some none = false
is_some (some a) = true

abbrev pub is_owner : ℕ → Option ℕ → Bool
is_owner s none = false
is_owner s (some k) = k == s

-- `remaining_of` is the account, the ids that have an owner are those with something left, and the
-- sets of the sessions are the owners turned around.
pub record Tracks (x : Exchange) (a : ℕ → ℕ) : Type 0 where
  pub remaining : (k : ℕ) → x.remaining_of k ≡ positive (a k)
  pub owned : (k : ℕ) → is_some (x.owner_of k) ≡ not (a k == 0)
  pub sets : (s k : ℕ) → member k (x.session_orders s) ≡ is_owner s (x.owner_of k)

abbrev pub without : (ℕ → ℕ) → ℕ → ℕ → ℕ
without a k i = if i == k then 0 else a i

-- All that `forget_order` needs to know: the account at the other ids.
pub record TracksBut (x : Exchange) (a : ℕ → ℕ) (k : ℕ) : Type 0 where
  pub remaining_but : (i : ℕ) → (i == k) ≡ false → x.remaining_of i ≡ positive (a i)
  pub owned_but : (i : ℕ) → (i == k) ≡ false → is_some (x.owner_of i) ≡ not (a i == 0)
  pub sets_all : (s i : ℕ) → member i (x.session_orders s) ≡ is_owner s (x.owner_of i)

forget_unowned :
    (x : Exchange) (k : ℕ)
    → x.owner_of k ≡ none
    → forget_order x k ≡ record x {
      client_id_of = erase x.client_id_of k;
      remaining_of = erase x.remaining_of k;
      side_of = erase x.side_of k;
    }
unfolding forget_order
forget_unowned x k e =
    ap
      (λ o. record (forget_owner x k o) {
        client_id_of = erase x.client_id_of k;
        remaining_of = erase x.remaining_of k;
        side_of = erase x.side_of k;
      })
      e

forget_order-owned :
    (x : Exchange) (k s : ℕ)
    → x.owner_of k ≡ some s
    → forget_order x k ≡ record (forget_owned x k s) {
      client_id_of = erase x.client_id_of k;
      remaining_of = erase x.remaining_of k;
      side_of = erase x.side_of k;
    }
unfolding forget_order
forget_order-owned x k s e =
    ap
      (λ o. record (forget_owner x k o) {
        client_id_of = erase x.client_id_of k;
        remaining_of = erase x.remaining_of k;
        side_of = erase x.side_of k;
      })
      e

module _ (x : Exchange) (a : ℕ → ℕ) (k : ℕ) (h : TracksBut x a k) where
  erase-remaining : (i : ℕ) → erase x.remaining_of k i ≡ positive (without a k i)
  erase-remaining i = elim (Bool-cases (i == k)) [
    | inl e ↦ rw e refl
    | inr e ↦ rw e (h.remaining_but i e)
  ]

  erase-owned : (i : ℕ) → is_some (erase x.owner_of k i) ≡ not (without a k i == 0)
  erase-owned i = elim (Bool-cases (i == k)) [ inl e ↦ rw e refl | inr e ↦ rw e (h.owned_but i e) ]

  unowned-owned : x.owner_of k ≡ none → (i : ℕ) → is_some (x.owner_of i) ≡ not (without a k i == 0)
  unowned-owned n i = elim (Bool-cases (i == k)) [
    | inl e ↦ let same : i ≡ k = ground arith in rw (e, same, n) refl
    | inr e ↦ rw e (h.owned_but i e)
  ]

  owned-sets :
      (t s i : ℕ)
      → x.owner_of k ≡ some t
      → member i (put_set x.session_orders t (remove k (x.session_orders t)) s)
        ≡ is_owner s (erase x.owner_of k i)
  owned-sets t s i o =
      ground (arith, member-remove i k (x.session_orders t), h.sets_all s i, h.sets_all t i)

  pub forget_order-Tracks : Tracks (forget_order x k) (without a k)
  forget_order-Tracks = elim (Option-cases (x.owner_of k)) [
    | inl n ↦
        rw (forget_unowned x k n)
          (record { remaining = erase-remaining; owned = unowned-owned n; sets = h.sets_all })
    | inr (t, o) ↦ rw (forget_order-owned x k t o) (record {
      remaining = erase-remaining;
      owned = erase-owned;
      sets = λ s i. owned-sets t s i o;
    })
  ]

-- An order is forgotten: nothing of it is left.
pub forget-Tracks :
    (x : Exchange) (a : ℕ → ℕ) (k : ℕ) → Tracks x a → Tracks (forget_order x k) (without a k)
forget-Tracks x a k h = forget_order-Tracks x a k (record {
  remaining_but = λ i e. h.remaining i;
  owned_but = λ i e. h.owned i;
  sets_all = h.sets;
})
