-- ===== src/Notifications/Once.antt =====
-- :That a delivery of packages/asas-notifications is not sent twice, as long as no pass outlives its
-- claim.
use asas.Base.{
  ℕ, ◌+◌, ◌≤◌, ◌≡◌, refl, true, false, [], ◌∷◌, ◌++◌, arith, ◌==◌, ◌&&◌, count_where, Bool-cases,
  inl, inr, count_where-append, count_where-update, if◌then◌else◌,
}
use asas.Notifications.Model.{is_sending, is_sent}
use asas.Notifications.Outbox.{
  is_delivery, is_stale, unclaimed, reclaim_stale, claimable, claimed, claim, new_delivery, finish,
}
use asas.Notifications.Dispatch.{Sent, returned, skips, raises, outcome, no_adapter}
use asas.Notifications.Deliveries.{
  World, is_flight, returns, Step, emits, claims, finishes, lacks_adapter, crashes, takes_over, Run,
  Run-induction,
}
use asas.Notifications.Leases.{
  in_flight, is_done, Punctual, Accounts, exclusive, leased-claim, leased-reclaim, punctual_id,
  kept-single, count-split, landed,
}

outcome-idle : (now attempts : ℕ) (s : Sent) → is_sending (outcome now attempts s).status ≡ false
unfolding outcome
outcome-idle now a returned = refl
outcome-idle now a (skips text) = refl
outcome-idle now a (raises text) = ground arith

outcome-sent :
    (now attempts : ℕ) (s : Sent)
    → returns s ≡ true
    → is_sent (outcome now attempts s).status ≡ true
unfolding outcome
outcome-sent now a returned h = refl
outcome-sent now a (skips text) h = absurd (ground (arith, h))
outcome-sent now a (raises text) h = absurd (ground (arith, h))

no_adapter-idle : is_sending no_adapter.status ≡ false
unfolding no_adapter
no_adapter-idle = refl

Step-Accounts : (k : ℕ) (w u : World) → Step Punctual w u → Accounts w k → Accounts u k
unfolding claim finish reclaim_stale
Step-Accounts k w u (emits id notification_id org channel fresh) a =
    let row = new_delivery id notification_id org channel in
    record {
      single =
          unfold count_where in
          ground (arith, a.single, fresh, count_where-append (is_delivery k) w.outbox (row ∷ []));
      flying =
          unfold count_where in
          ground (arith, a.flying, count_where-append (in_flight k) w.outbox (row ∷ []));
      settled =
          unfold count_where in
          ground (arith, a.settled, count_where-append (is_done k) w.outbox (row ∷ []));
    }
Step-Accounts k w u (claims f now room won) a = record {
  single =
      omega (arith, kept-single k (claimable f.id) (claimed now) w.outbox (λ d. refl), a.single);
  flying = unfold count_where in ground (arith, a.flying, leased-claim now f.id k w.outbox, won);
  settled = ground (
    arith,
    a.settled,
    count_where-update (is_done k) (claimable f.id) (claimed now) w.outbox
        (λ d h. ground (arith, h)),
  );
}
Step-Accounts k w u (finishes xs ys f now s e) a =
    landed w k xs ys f (outcome now f.attempts s) (returns s) e (outcome-idle now f.attempts s)
      (outcome-sent now f.attempts s) a
Step-Accounts k w u (lacks_adapter xs ys f e) a =
    landed w k xs ys f no_adapter false e no_adapter-idle (λ h. absurd (ground (arith, h))) a
Step-Accounts k w u (crashes xs ys f e) a =
    let flights : count_where (is_flight k) w.flights
        ≡ count_where (is_flight k) (xs ++ ys) + (if f.id == k then 1 else 0) =
      rw e (count-split k xs ys f) in
    record { single = a.single; flying = ground (arith, flights, a.flying); settled = a.settled }
Step-Accounts k w u (takes_over now punctual) a =
    let kept = leased-reclaim now k w.outbox in
    record {
      single = omega (arith, kept-single k (is_stale now) unclaimed w.outbox (λ d. refl), a.single);
      flying = elim (Bool-cases (count_where (is_flight k) w.flights == 0)) [
        | inl idle ↦ ground (arith, idle)
        | inr busy ↦
            let live = punctual_id now k w.outbox w.flights punctual (ground (arith, busy)) in
            omega (arith, kept, live, a.flying)
      ];
      settled = omega (
        arith,
        a.settled,
        count_where-update (is_done k) (is_stale now) unclaimed w.outbox (λ d h. ground (arith, h)),
      );
    }

abbrev pub empty_world : World
empty_world = record { outbox = []; flights = []; delivered = [] }

empty-Accounts : (k : ℕ) → Accounts empty_world k
unfolding count_where
empty-Accounts k = record { single = omega arith; flying = omega arith; settled = omega arith }

-- From an empty outbox, whatever is emitted and however many passes run, overlap or crash before a
-- send returns: as long as no claim is taken over while its pass still sends, no delivery is ever in
-- the hands of two passes, none is sent again after a send of it returned, and one whose send
-- returned is marked sent.
pub delivered_once :
    (w : World) (k : ℕ)
    → Run Punctual empty_world w
    → (count_where (is_flight k) w.flights + count_where (λ i. i == k) w.delivered ≤ 1)
      × (count_where (λ i. i == k) w.delivered
          ≤ count_where (λ d. is_delivery k d && is_sent d.status) w.outbox)
delivered_once w k r =
    let a =
      Run-induction Punctual (λ v. Accounts v k) (λ v v' st h. Step-Accounts k v v' st h) r
        (empty-Accounts k) in
    (omega (arith, a.flying, a.settled, a.single, exclusive k w.outbox), a.settled)
