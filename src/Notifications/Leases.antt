-- ===== src/Notifications/Leases.antt =====
-- How many rows of the outbox of packages/asas-notifications a pass holds and how many are sent.
use asas.Base.{
  ℕ, ◌+◌, ◌≤◌, ◌<◌, ◌≡◌, refl, Bool, true, false, List, [], ◌∷◌, ◌++◌, arith, ◌==◌, ◌&&◌, All,
  subst, ap, ◌∙◌, count_where, update_where, Bool-cases, inl, inr, count_where-update,
  count_where-clears, count_where-marks, if◌then◌else◌,
}
use asas.Notifications.Model.{NotificationDelivery, is_sending, is_sent}
use asas.Notifications.Outbox.{
  Outbox, is_delivery, is_stale, unclaimed, claimable, claimed, Values, written,
}
use asas.Notifications.Deliveries.{Flight, World, is_flight}

abbrev pub in_flight : ℕ → NotificationDelivery → Bool
in_flight k d = is_delivery k d && is_sending d.status

abbrev pub is_done : ℕ → NotificationDelivery → Bool
is_done k d = is_delivery k d && is_sent d.status

abbrev pub stale_one : ℕ → ℕ → NotificationDelivery → Bool
stale_one now k d = is_delivery k d && is_stale now d

-- No pass is still sending a row whose claim is old enough to be taken over.
abbrev pub Punctual : ℕ → World → Type 0
Punctual now w = All (λ f. count_where (stale_one now f.id) w.outbox ≡ 0) w.flights

-- The row of an id is one, it is leased for each flight, and marked sent for each send that returned.
pub record Accounts (w : World) (k : ℕ) : Type 0 where
  pub single : count_where (is_delivery k) w.outbox ≤ 1
  pub flying : count_where (is_flight k) w.flights ≤ count_where (in_flight k) w.outbox
  pub settled : count_where (λ i. i == k) w.delivered ≤ count_where (is_done k) w.outbox

pub exclusive :
    (k : ℕ) (xs : Outbox)
    → count_where (in_flight k) xs + count_where (is_done k) xs ≤ count_where (is_delivery k) xs
unfolding count_where
exclusive k [] = omega arith
exclusive k (d ∷ ds) = ground (arith, exclusive k ds)

pub leased-claim :
    (now id k : ℕ) (xs : Outbox)
    → count_where (in_flight k) (update_where (claimable id) (claimed now) xs)
      ≡ count_where (in_flight k) xs + (if id == k then count_where (claimable id) xs else 0)
unfolding count_where update_where
leased-claim now id k [] = ground arith
leased-claim now id k (d ∷ ds) = ground (arith, leased-claim now id k ds)

pub leased-reclaim :
    (now k : ℕ) (xs : Outbox)
    → count_where (in_flight k) (update_where (is_stale now) unclaimed xs)
        + count_where (stale_one now k) xs
      ≡ count_where (in_flight k) xs
unfolding count_where update_where
leased-reclaim now k [] = omega arith
leased-reclaim now k (d ∷ ds) = ground (arith, leased-reclaim now k ds)

pub punctual_id :
    (now k : ℕ) (xs : Outbox) (fs : List Flight)
    → All (λ f. count_where (stale_one now f.id) xs ≡ 0) fs
    → 0 < count_where (is_flight k) fs
    → count_where (stale_one now k) xs ≡ 0
unfolding count_where
punctual_id now k xs [] h some_ = absurd (omega arith)
punctual_id now k xs (f ∷ fs) h some_ = elim (Bool-cases (f.id == k)) [
  | inl e ↦ subst (λ j. count_where (stale_one now j) xs ≡ 0) (ground (arith, e)) h.0
  | inr e ↦ punctual_id now k xs fs h.1 (ground (arith, e, some_))
]

-- A finish by the one flight of its id: the row is leased no more, and marked sent if the send returned.
pub finish-leased :
    (id k : ℕ) (v : Values) (xs : Outbox)
    → is_sending v.status ≡ false
    → count_where (in_flight k) (update_where (is_delivery id) (written v) xs)
      ≡ (if id == k then 0 else count_where (in_flight k) xs)
unfolding count_where update_where
finish-leased id k v [] h = ground arith
finish-leased id k v (d ∷ ds) h = ground (arith, h, finish-leased id k v ds h)

pub finish-done_self :
    (id k : ℕ) (v : Values) (xs : Outbox)
    → (id == k) ≡ true
    → count_where (is_done k) (update_where (is_delivery id) (written v) xs)
      ≡ (if is_sent v.status then count_where (is_delivery k) xs else 0)
finish-done_self id k v xs e = elim (Bool-cases (is_sent v.status)) [
  | inl m ↦
      let one : count_where (is_delivery id) xs ≡ count_where (is_delivery k) xs =
        ap (λ j. count_where (is_delivery j) xs) (ground (arith, e)) in
      rw m (
        count_where-marks (is_done k) (is_delivery id) (written v) xs
          (λ d h. ground (arith, m, e, h)) (λ d h. ground (arith, e, h))
        ∙ one)
  | inr n ↦ rw n (
      count_where-clears (is_done k) (is_delivery id) (written v) xs (λ d h. ground (arith, n))
        (λ d h. ground (arith, e, h)))
]

pub finish-done_other :
    (id k : ℕ) (v : Values) (xs : Outbox)
    → (id == k) ≡ false
    → count_where (is_done k) (update_where (is_delivery id) (written v) xs)
      ≡ count_where (is_done k) xs
finish-done_other id k v xs e =
    count_where-update (is_done k) (is_delivery id) (written v) xs (λ d h. ground (arith, e, h))

pub kept-single :
    (k : ℕ) (p : NotificationDelivery → Bool) (f : NotificationDelivery → NotificationDelivery)
    (xs : Outbox)
    → ((d : NotificationDelivery) → (f d).id ≡ d.id)
    → count_where (is_delivery k) (update_where p f xs) ≡ count_where (is_delivery k) xs
kept-single k p f xs h = count_where-update (is_delivery k) p f xs (λ d _. ground (arith, h d))

pub count-split :
    (k : ℕ) (xs ys : List Flight) (f : Flight)
    → count_where (is_flight k) (xs ++ f ∷ ys)
      ≡ count_where (is_flight k) (xs ++ ys) + (if f.id == k then 1 else 0)
unfolding count_where
count-split k [] ys f = ground arith
count-split k (x ∷ xs) ys f = ground (arith, count-split k xs ys f)

pub landed-settled :
    (w : World) (k : ℕ) (xs ys : List Flight) (f : Flight) (v : Values) (s : Bool)
    → count_where (is_flight k) w.flights
      ≡ count_where (is_flight k) (xs ++ ys) + (if f.id == k then 1 else 0)
    → (s ≡ true → is_sent v.status ≡ true)
    → Accounts w k
    → count_where (λ i. i == k) (if s then f.id ∷ w.delivered else w.delivered)
      ≤ count_where (is_done k) (update_where (is_delivery f.id) (written v) w.outbox)
unfolding count_where
landed-settled w k xs ys f v s flights mark a = elim (Bool-cases (f.id == k)) [
  | inl e ↦ ground (
    arith,
    e,
    flights,
    finish-done_self f.id k v w.outbox e,
    a.flying,
    a.settled,
    a.single,
    mark,
    exclusive k w.outbox,
  )
  | inr e ↦ ground (arith, e, finish-done_other f.id k v w.outbox e, a.settled)
]

-- One flight less, its row finished.
pub landed :
    (w : World) (k : ℕ) (xs ys : List Flight) (f : Flight) (v : Values) (s : Bool)
    → w.flights ≡ xs ++ f ∷ ys
    → is_sending v.status ≡ false
    → (s ≡ true → is_sent v.status ≡ true)
    → Accounts w k
    → Accounts
        (record {
          outbox = update_where (is_delivery f.id) (written v) w.outbox;
          flights = xs ++ ys;
          delivered = if s then f.id ∷ w.delivered else w.delivered;
        })
        k
landed w k xs ys f v s e idle mark a =
    let flights : count_where (is_flight k) w.flights
        ≡ count_where (is_flight k) (xs ++ ys) + (if f.id == k then 1 else 0) =
      rw e (count-split k xs ys f) in
    record {
      single =
          omega
            (arith, kept-single k (is_delivery f.id) (written v) w.outbox (λ d. refl), a.single);
      flying = ground (
        arith,
        flights,
        finish-leased f.id k v w.outbox idle,
        a.flying,
        a.single,
        exclusive k w.outbox,
      );
      settled = landed-settled w k xs ys f v s flights mark a;
    }

pub no_leased : (k : ℕ) (d : NotificationDelivery) → in_flight k d ≡ true → is_delivery k d ≡ true
no_leased k d h = ground (arith, h)
