-- ===== src/Audit/Appends.antt =====
-- That `append` of packages/asas-audit/src/asas_audit/service.py keeps every chain intact and refuses a fork.
use asas.Base.{
  ℕ, ◌≡◌, refl, sym, ap, ◌∙◌, subst, String, true, false, Option, none, some, List, [], ◌∷◌, ◌++◌,
  if◌then◌else◌, arith, map, Bool-cases, inl, inr, eq_iff, ◌-ℤ◌, +ℤ_cancel, first_where-last,
  first_where, is_some, first_where-append,
}
use mathlib.Core.List.{map-append}
use asas.Audit.Chain.{
  Bytes, Timestamp, utc, Codec, AuditEvent, is_intact, chain_payload, compute_hash, expected_of,
  canonical_timestamp,
}
use asas.Audit.Log.{
  Engine, sqlite, postgres, read_time, read_row, in_utc, of_org, rows_of, tail_hash, forks,
  insert_event, Entry, unhashed, new_row, append, verify, or_now,
}
use asas.Audit.Verify.{same_hash_iff, IsChained, verify_rows_iff, last_hash, IsChained-append}

-- Reading a row back changes neither the moment nor what is hashed, whatever the engine.
utc-read_time : (e : Engine) (t : Timestamp) → utc (read_time e (in_utc t)) ≡ utc (in_utc t)
unfolding utc read_time in_utc ◌-ℤ◌
utc-read_time sqlite t = ground arith
utc-read_time (postgres zone) t = +ℤ_cancel _ zone

abbrev pub or_prev : Option Bytes → Option Bytes → Option Bytes
or_prev none prev = prev
or_prev (some h) prev = some h

rows_of-append :
    (org : String) (log : List AuditEvent) (new : AuditEvent)
    → rows_of org (log ++ new ∷ [])
      ≡ (if of_org org new then rows_of org log ++ new ∷ [] else rows_of org log)
unfolding rows_of
rows_of-append org [] new = ground arith
rows_of-append org (r ∷ rs) new = ground (arith, rows_of-append org rs new)

insert_event-append :
    (log log' : List AuditEvent) (new : AuditEvent)
    → insert_event log new ≡ some log'
    → log' ≡ log ++ new ∷ []
unfolding insert_event
insert_event-append log log' new h = ground arith

module _ (codec : Codec) (e : Engine) (org : String) where
  abbrev pub read : List AuditEvent → List AuditEvent
  read = map (read_row e)

  last_hash-read :
      (log : List AuditEvent) (prev : Option Bytes)
      → last_hash codec org prev (read (rows_of org log)) ≡ or_prev (tail_hash org log) prev
  unfolding rows_of tail_hash read_row
  last_hash-read [] prev = refl
  last_hash-read (r ∷ rs) prev = elim (Bool-cases (of_org org r)) [
    | inl m ↦ rw m (last_hash-read rs (some r.hash_current) ∙ ground arith)
    | inr m ↦ rw m (last_hash-read rs prev)
  ]

module _ (codec : Codec) (e : Engine) (x : Entry) (prev : Option Bytes) (id : String) (seq : ℕ)
    (now : Timestamp) where
  -- The writer's hash is the one that the verifier recomputes from the row it reads back.
  new_row-expected :
      (new_row codec x prev id seq now).hash_current
      ≡ expected_of codec x.org_id prev (read_row e (new_row codec x prev id seq now))
  unfolding new_row unhashed read_row chain_payload canonical_timestamp
  new_row-expected = ap (compute_hash codec prev) (cc (utc-read_time e (or_now x.occurred_at now)))

module _ (codec : Codec) (e : Engine) (log : List AuditEvent) (x : Entry) (id : String) (seq : ℕ)
    (now : Timestamp) where
  abbrev next : AuditEvent
  next = new_row codec x (tail_hash x.org_id log) id seq now

  abbrev mine : List AuditEvent
  mine = read codec e x.org_id (rows_of x.org_id log)

  tail-last : tail_hash x.org_id log ≡ last_hash codec x.org_id none mine
  tail-last = ground (arith, last_hash-read codec e x.org_id log none)

  next-IsChained :
      IsChained codec x.org_id none mine
      → IsChained codec x.org_id none (mine ++ read_row e next ∷ [])
  next-IsChained c =
      IsChained-append codec x.org_id none mine (read_row e next) c
        (unfold new_row unhashed read_row in tail-last)
        (subst
          (λ (p : Option Bytes).
            (read_row e next).hash_current ≡ expected_of codec x.org_id p (read_row e next))
          tail-last
          (unfold read_row in new_row-expected codec e x (tail_hash x.org_id log) id seq now))

  next-org : (org : String) → of_org org next ≡ true → x.org_id ≡ org
  unfolding new_row unhashed
  next-org org h = ground (arith, eq_iff x.org_id org)

  next-own : of_org x.org_id next ≡ true
  unfolding new_row unhashed
  next-own = (eq_iff x.org_id x.org_id).1 refl

  verify-other :
      (org : String)
      → of_org org next ≡ false
      → verify codec e (log ++ next ∷ []) org ≡ verify codec e log org
  unfolding verify
  verify-other org other = rw (rows_of-append org log next, other) refl

  verify-own :
      is_intact (verify codec e log x.org_id) ≡ true
      → is_intact (verify codec e (log ++ next ∷ []) x.org_id) ≡ true
  unfolding verify
  verify-own ok =
      rw (rows_of-append x.org_id log next, next-own, map-append)
        ((verify_rows_iff codec x.org_id (mine ++ read_row e next ∷ [])).0.1
          (next-IsChained ((verify_rows_iff codec x.org_id mine).0.0 ok)))

-- Whatever the engine hands back, an append keeps the organisation's chain intact and does not touch
-- another's: if `verify` found no break for an organisation before, it finds none after.
pub append-is_intact :
    (codec : Codec) (e : Engine) (log log' : List AuditEvent) (x : Entry) (id : String) (seq : ℕ)
    (now : Timestamp) (org : String)
    → append codec log x id seq now ≡ some log'
    → is_intact (verify codec e log org) ≡ true
    → is_intact (verify codec e log' org) ≡ true
append-is_intact codec e log log' x id seq now org added ok =
    let row = next codec e log x id seq now in
    let grown = insert_event-append log log' row (unfold append in added) in
    subst (λ (l : List AuditEvent). is_intact (verify codec e l org) ≡ true) (sym grown)
      (elim (Bool-cases (of_org org row)) [
        | inl own ↦
            let same = next-org codec e log x id seq now org own in
            subst (λ (o : String). is_intact (verify codec e (log ++ row ∷ []) o) ≡ true) same
              (verify-own codec e log x id seq now
                (subst (λ (o : String). is_intact (verify codec e log o) ≡ true) (sym same) ok))
        | inr other ↦ rw (verify-other codec e log x id seq now org other) ok
      ])

-- What any sessions have inserted since: rows that were accepted, in any number and order.
pub data Later (log : List AuditEvent) : List AuditEvent → Type 0 where
  now_ : Later log log
  then_ :
      {b c : List AuditEvent}
      → Later log b
      → (row : AuditEvent) → insert_event b row ≡ some c
      → Later log c

some_forks :
    (rival row : AuditEvent) (log : List AuditEvent)
    → is_some (first_where (forks rival) log) ≡ true
    → is_some (first_where (forks rival) (log ++ row ∷ [])) ≡ true
some_forks rival row log found = first_where-append (forks rival) log (row ∷ []) found

Later-forks :
    (rival : AuditEvent) (log log' : List AuditEvent)
    → Later log log'
    → is_some (first_where (forks rival) log) ≡ true
    → is_some (first_where (forks rival) log') ≡ true
Later-forks rival log log' now_ found = found
Later-forks rival log log' (then_ {b} {c} before row accepted) found =
    rw (insert_event-append b c row accepted)
      (some_forks rival row b (Later-forks rival log b before found))

forked_is_refused :
    (rival : AuditEvent) (log : List AuditEvent)
    → is_some (first_where (forks rival) log) ≡ true
    → insert_event log rival ≡ none
unfolding insert_event
forked_is_refused rival log found = rw found refl

-- A fork is refused for good: after an entry has chained off a fingerprint, and whatever rows sessions
-- have inserted since, no entry of its organisation that chains off the same fingerprint is inserted.
pub fork_refused :
    (codec : Codec) (log log' later : List AuditEvent) (x : Entry) (id : String) (seq : ℕ)
    (now : Timestamp) (rival : AuditEvent) (h : Bytes)
    → append codec log x id seq now ≡ some log'
    → Later log' later
    → tail_hash x.org_id log ≡ some h
    → rival.org_id ≡ x.org_id
    → rival.hash_prev ≡ some h
    → insert_event later rival ≡ none
fork_refused codec log log' later x id seq now rival h added since tail same prev =
    let row = new_row codec x (tail_hash x.org_id log) id seq now in
    let grown = insert_event-append log log' row (unfold append in added) in
    let found : is_some (first_where (forks rival) log') ≡ true = rw grown (
      first_where-last (forks rival) log row (
        unfold new_row unhashed in
        rw
          (
            same,
            prev,
            tail,
            (eq_iff x.org_id x.org_id).1 refl,
            (same_hash_iff (some h) (some h)).1 refl,
          )
          refl)) in
    forked_is_refused rival later (Later-forks rival log' later since found)
