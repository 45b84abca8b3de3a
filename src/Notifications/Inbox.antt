-- ===== src/Notifications/Inbox.antt =====
-- What the read and archive operations of packages/asas-notifications may change, and what a badge
-- counts.
use asas.Base.{
  select_where, ℕ, ◌≤◌, ◌≡◌, inl, inr, refl, Bool, true, false, some, [], ◌∷◌, arith, not, ◌&&◌,
  update_where, count_where, first_where, Bool-cases, Option-cases, update_where-none,
  count_where-clears, count_where_mono, count_where-update,
}
use asas.Notifications.Model.{Notification, Host}
use asas.Notifications.Feed.{
  Inbox, recipient_conditions, unread, in_inbox, unread_count, has_id, owned, touch, seen_at,
  filed_at, restored, mark_read, mark_all_read, archive, unarchive, archive_read,
}

-- An update of rows that all fail a condition and still fail it leaves the rows that meet it.
select_where-update {ℓ} :
    {A : Type ℓ} (q p : A → Bool) (f : A → A) (xs : _)
    → ((x : A) → p x ≡ true → q x ≡ false)
    → ((x : A) → p x ≡ true → q (f x) ≡ false)
    → select_where q (update_where p f xs) ≡ select_where q xs
unfolding select_where update_where
select_where-update q p f [] h k = refl
select_where-update q p f (x ∷ xs) h k = ground (arith, h x, k x, select_where-update q p f xs h k)

-- The one row with an id, where it fails a condition before and after the write.
select_where-update-id :
    (q : Notification → Bool) (id : ℕ) (f : Notification → Notification) (xs : Inbox)
    (n : Notification)
    → count_where (has_id id) xs ≤ 1
    → first_where (has_id id) xs ≡ some n
    → q n ≡ false
    → q (f n) ≡ false
    → select_where q (update_where (has_id id) f xs) ≡ select_where q xs
unfolding select_where update_where first_where count_where
select_where-update-id q id f [] n one found h k = refl
select_where-update-id q id f (x ∷ xs) n one found h k = elim (Bool-cases (has_id id x)) [
  | inl e ↦
      let here : x ≡ n = ground (arith, e, found) in
      let before : q x ≡ false = rw here h in
      let after : q (f x) ≡ false = rw here k in
      let same = update_where-none (has_id id) f xs (ground (arith, e, one)) in
      ground (arith, e, same, before, after)
  | inr e ↦
      let rest =
        select_where-update-id q id f xs n (ground (arith, e, one)) (ground (arith, e, found)) h
          k in
      ground (arith, e, rest)
]

-- The rows of the other recipients and, in a request, of the other organisations.
abbrev pub others : {U R : Type 0} → Host U R → U → Inbox → Inbox
others host user = select_where (λ n. not (recipient_conditions host user n))

module _ {U R : Type 0} (host : Host U R) (user : U) (inbox : Inbox) where
  -- What a write of one row may not change: the columns that say whose row it is.
  abbrev KeepsOwner : (Notification → Notification) → Type 0
  KeepsOwner f =
      (n : Notification) → recipient_conditions host user (f n) ≡ recipient_conditions host user n

  touch-others :
      (due : Notification → Bool) (write : Notification → Notification) (id : ℕ)
      → count_where (has_id id) inbox ≤ 1
      → KeepsOwner write
      → others host user (touch host due write user id inbox).0 ≡ others host user inbox
  unfolding touch owned
  touch-others due write id one keep = elim (Option-cases (first_where (has_id id) inbox)) [
    | inl e ↦ rw (e, touch, owned) refl
    | inr (n, e) ↦ elim (Bool-cases (recipient_conditions host user n)) [
      | inr foreign ↦ rw (e, touch, owned, foreign) refl
      | inl own ↦ elim (Bool-cases (due n)) [
        | inr idle ↦ rw (e, touch, owned, own, idle) refl
        | inl go ↦
            rw (e, touch, owned, own, go)
              (select_where-update-id (λ m. not (recipient_conditions host user m)) id write inbox n
                one e (ground (arith, own)) (ground (arith, own, keep n)))
      ]
    ]
  ]

  seen-keeps : (now : ℕ) → KeepsOwner (seen_at now)
  unfolding recipient_conditions
  seen-keeps now n = refl

  filed-keeps : (now : ℕ) → KeepsOwner (filed_at now)
  unfolding recipient_conditions
  filed-keeps now n = refl

  restored-keeps : KeepsOwner restored
  unfolding recipient_conditions
  restored-keeps n = refl

  -- Nothing that a recipient does, to one row or to all, changes a row of another recipient, nor, in
  -- the request of an organisation, one of another organisation. No two rows share an id.
  pub others_untouched :
      (now id : ℕ)
      → count_where (has_id id) inbox ≤ 1
      → (others host user (mark_read host now user id inbox).0 ≡ others host user inbox)
        × (others host user (mark_all_read host now user inbox).0 ≡ others host user inbox)
        × (others host user (archive host now user id inbox).0 ≡ others host user inbox)
        × (others host user (unarchive host user id inbox).0 ≡ others host user inbox)
        × (others host user (archive_read host now user inbox).0 ≡ others host user inbox)
  unfolding mark_read mark_all_read archive unarchive archive_read
  others_untouched now id one = (
    touch-others unread (seen_at now) id one (seen-keeps now),
    select_where-update (λ n. not (recipient_conditions host user n))
        (λ n. recipient_conditions host user n && unread n) (seen_at now) inbox
        (λ n h. ground (arith, h)) (λ n h. ground (arith, h, seen-keeps now n)),
    touch-others in_inbox (filed_at now) id one (filed-keeps now),
    touch-others (λ n. not (in_inbox n)) restored id one restored-keeps,
    select_where-update (λ n. not (recipient_conditions host user n))
        (λ n. recipient_conditions host user n && not (unread n) && in_inbox n) (filed_at now) inbox
        (λ n h. ground (arith, h)) (λ n h. ground (arith, h, filed-keeps now n)),
  )

  -- After `mark_all_read` the badge shows nothing, and what is reported as changed is at least what
  -- the badge had counted.
  pub mark_all_read-unread_count :
      (now : ℕ)
      → (unread_count host user (mark_all_read host now user inbox).0 ≡ 0)
        × (unread_count host user inbox ≤ (mark_all_read host now user inbox).1)
  unfolding mark_all_read unread_count
  mark_all_read-unread_count now = (
    count_where-clears (λ n. recipient_conditions host user n && unread n && in_inbox n)
        (λ n. recipient_conditions host user n && unread n) (seen_at now) inbox
        (λ n h. ground (arith, seen-keeps now n)) (λ n h. ground (arith, h)),
    count_where_mono (λ n. recipient_conditions host user n && unread n && in_inbox n)
        (λ n. recipient_conditions host user n && unread n) inbox (λ n h. ground (arith, h)),
  )

  -- The badge after `archive_read` is the badge before: nothing unread is filed away.
  pub archive_read-unread_count :
      (now : ℕ)
      → unread_count host user (archive_read host now user inbox).0 ≡ unread_count host user inbox
  unfolding archive_read unread_count
  archive_read-unread_count now =
      count_where-update (λ n. recipient_conditions host user n && unread n && in_inbox n)
        (λ n. recipient_conditions host user n && not (unread n) && in_inbox n) (filed_at now) inbox
        (λ n h. ground (arith, h, filed-keeps now n))
