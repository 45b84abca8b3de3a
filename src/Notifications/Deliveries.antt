-- ===== src/Notifications/Deliveries.antt =====
-- The outbox of packages/asas-notifications under passes that overlap, crash and take over stale
-- claims.
use asas.Base.{
  ℕ, ◌≤◌, ◌<◌, ◌≡◌, refl, String, Bool, true, false, Option, List, [], ◌∷◌, ◌++◌, arith, ◌==◌, ◌||◌,
  All, All-append, All-update_where, count_where, is_some, if◌then◌else◌,
}
use asas.Notifications.Model.{NotificationDelivery, failed, is_pending, is_sending}
use asas.Notifications.Outbox.{
  Outbox, max_attempts, is_delivery, is_stale, unclaimed, reclaim_stale, claimable, claimed, claim,
  new_delivery, written, finish,
}
use asas.Notifications.Dispatch.{Sent, returned, skips, raises, outcome, no_adapter}

-- A row as a pass read it, after its claim and until its outcome is written.
pub record Flight : Type 0 where
  pub id : ℕ
  pub attempts : ℕ

-- The outbox, what is being sent, and the ids whose send returned.
pub record World : Type 0 where
  pub outbox : Outbox
  pub flights : List Flight
  pub delivered : List ℕ

abbrev pub is_flight : ℕ → Flight → Bool
is_flight id f = f.id == id

abbrev pub returns : Sent → Bool
returns s = elim s [ returned ↦ true | _ ↦ false ]

abbrev pub noted : Sent → ℕ → List ℕ → List ℕ
noted s id ids = if returns s then id ∷ ids else ids

-- What is committed: an emit, a claim that won, an outcome, a channel without adapter, a crash
-- before the adapter returned, and a takeover of stale claims, where `Timely` allows it.
module _ (Timely : ℕ → World → Type 0) where
  pub data Step (w : World) : World → Type 0 where
    emits :
        (id notification_id : ℕ) (org : Option String) (channel : String)
        → count_where (is_delivery id) w.outbox ≡ 0
        → Step w
            (record w { outbox = w.outbox ++ new_delivery id notification_id org channel ∷ [] })
    claims :
        (f : Flight) (now : ℕ)
        → f.attempts < max_attempts
        → (claim now f.id w.outbox).1 ≡ true
        → Step w (record w { outbox = (claim now f.id w.outbox).0; flights = f ∷ w.flights })
    finishes :
        (xs ys : List Flight) (f : Flight) (now : ℕ) (s : Sent)
        → w.flights ≡ xs ++ f ∷ ys
        → Step w (record {
          outbox = finish f.id (outcome now f.attempts s) w.outbox;
          flights = xs ++ ys;
          delivered = noted s f.id w.delivered;
        })
    lacks_adapter :
        (xs ys : List Flight) (f : Flight)
        → w.flights ≡ xs ++ f ∷ ys
        → Step w (record w { outbox = finish f.id no_adapter w.outbox; flights = xs ++ ys })
    crashes :
        (xs ys : List Flight) (f : Flight)
        → w.flights ≡ xs ++ f ∷ ys
        → Step w (record w { flights = xs ++ ys })
    takes_over :
        (now : ℕ) → Timely now w → Step w (record w { outbox = reclaim_stale now w.outbox })

  pub data Run (w : World) : World → Type 0 where
    here : Run w w
    next : {u v : World} → Run w u → Step u v → Run w v

  pub Run-induction {ℓ} :
      (P : World → Type ℓ) {w u : World}
      → ((v v' : World) → Step v v' → P v → P v')
      → Run w u
      → P w
      → P u
  Run-induction P keep here h = h
  Run-induction P keep (next r st) h = keep _ _ st (Run-induction P keep r h)

-- A row is leased exactly while it is being sent, never past its attempts, given up exactly when
-- they are spent, and retried only while one is left.
pub record IsSound (d : NotificationDelivery) : Type 0 where
  pub leased : is_some d.claimed_at ≡ is_sending d.status
  pub tried : d.attempts ≤ max_attempts
  pub open_ : (is_pending d.status || is_sending d.status) ≡ true → d.attempts < max_attempts
  pub spent : d.status ≡ failed → d.attempts ≡ max_attempts

-- Every flight was read with an attempt left, and every row is sound.
abbrev pub IsSoundWorld : World → Type 0
IsSoundWorld w = All IsSound w.outbox × All (λ f. f.attempts < max_attempts) w.flights

All-split {ℓ κ} :
    {A : Type ℓ} (P : A → Type κ) (xs ys : List A) (x : A)
    → All P (xs ++ x ∷ ys)
    → P x × All P (xs ++ ys)
All-split P [] ys x h = h
All-split P (z ∷ xs) ys x h = let (hit, rest) = All-split P xs ys x h.1 in (hit, (h.0, rest))

unclaimed-IsSound :
    (now : ℕ) (d : NotificationDelivery) → IsSound d → is_stale now d ≡ true → IsSound (unclaimed d)
unclaimed-IsSound now d h stale = record {
  leased = refl;
  tried = h.tried;
  open_ = λ _. h.open_ (ground (arith, stale));
  spent = λ e. absurd (ground (arith, e));
}

claimed-IsSound :
    (now id : ℕ) (d : NotificationDelivery)
    → IsSound d
    → claimable id d ≡ true
    → IsSound (claimed now d)
claimed-IsSound now id d h mine = record {
  leased = refl;
  tried = h.tried;
  open_ = λ _. h.open_ (ground (arith, mine));
  spent = λ e. absurd (ground (arith, e));
}

outcome-IsSound :
    (now attempts : ℕ) (s : Sent) (d : NotificationDelivery)
    → attempts < max_attempts
    → IsSound d
    → IsSound (written (outcome now attempts s) d)
unfolding outcome
outcome-IsSound now a returned d room h = record {
  leased = refl;
  tried = omega arith;
  open_ = λ e. absurd (ground (arith, e));
  spent = λ e. absurd (ground (arith, e));
}
outcome-IsSound now a (skips text) d room h = record {
  leased = refl;
  tried = h.tried;
  open_ = λ e. absurd (ground (arith, e));
  spent = λ e. absurd (ground (arith, e));
}
outcome-IsSound now a (raises text) d room h = record {
  leased = ground arith;
  tried = omega arith;
  open_ = λ e. ground (arith, e);
  spent = λ e. ground (arith, e);
}

no_adapter-IsSound : (d : NotificationDelivery) → IsSound d → IsSound (written no_adapter d)
unfolding no_adapter
no_adapter-IsSound d h = record {
  leased = refl;
  tried = h.tried;
  open_ = λ e. absurd (ground (arith, e));
  spent = λ e. absurd (ground (arith, e));
}

new_delivery-IsSound :
    (id notification_id : ℕ) (org : Option String) (channel : String)
    → IsSound (new_delivery id notification_id org channel)
new_delivery-IsSound id notification_id org channel = record {
  leased = refl;
  tried = omega arith;
  open_ = λ e. omega arith;
  spent = λ e. absurd (ground (arith, e));
}

module _ (Timely : ℕ → World → Type 0) where
  Step-IsSoundWorld : (w u : World) → Step Timely w u → IsSoundWorld w → IsSoundWorld u
  unfolding claim finish reclaim_stale
  Step-IsSoundWorld w u (emits id notification_id org channel fresh) (rows, flights) = (
    All-append IsSound w.outbox _ rows (new_delivery-IsSound id notification_id org channel, tt),
    flights,
  )
  Step-IsSoundWorld w u (claims f now room won) (rows, flights) = (
    All-update_where IsSound (claimable f.id) (claimed now) w.outbox (claimed-IsSound now f.id)
        rows,
    (room, flights),
  )
  Step-IsSoundWorld w u (finishes xs ys f now s e) (rows, flights) =
      let (room, rest) = All-split (λ g. g.attempts < max_attempts) xs ys f (rw e at flights) in
      (
        All-update_where IsSound (is_delivery f.id) (written (outcome now f.attempts s)) w.outbox
            (λ d h _. outcome-IsSound now f.attempts s d room h) rows,
        rest,
      )
  Step-IsSoundWorld w u (lacks_adapter xs ys f e) (rows, flights) = (
    All-update_where IsSound (is_delivery f.id) (written no_adapter) w.outbox
        (λ d h _. no_adapter-IsSound d h) rows,
    (All-split (λ g. g.attempts < max_attempts) xs ys f (rw e at flights)).1,
  )
  Step-IsSoundWorld w u (crashes xs ys f e) (rows, flights) =
      (rows, (All-split (λ g. g.attempts < max_attempts) xs ys f (rw e at flights)).1)
  Step-IsSoundWorld w u (takes_over now timely) (rows, flights) = (
    All-update_where IsSound (is_stale now) unclaimed w.outbox (unclaimed-IsSound now) rows,
    flights,
  )

-- Whatever is emitted, claimed, finished, lost and taken over, in any order and by however many
-- passes, every row stays sound: leased exactly while it is being sent, never past its attempts,
-- failed only when they are spent, and open only while one is left.
pub Run-IsSoundWorld :
    (Timely : ℕ → World → Type 0) (w u : World) → Run Timely w u → IsSoundWorld w → IsSoundWorld u
Run-IsSoundWorld Timely w u r h = Run-induction Timely IsSoundWorld (Step-IsSoundWorld Timely) r h
