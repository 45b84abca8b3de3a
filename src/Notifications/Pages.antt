-- ===== src/Notifications/Pages.antt =====
-- The pages of a recipient's feed in packages/asas-notifications.
use asas.Base.{
  select_where, ℕ, zero, suc, ◌+◌, ◌-◌, ◌*◌, ◌≤◌, ◌≡◌, ◌∙◌, ap, refl, Bool, true, false, List, [],
  ◌∷◌, ◌++◌, arith, ◌&&◌, length, take, count_where, sort_by, IsSortedBy, sort_by-IsSortedBy,
  count_where-sort_by, length-sort_by,
}
use native.Mathlib.Nat.{zero-add, suc-add, zero-mul}
use asas.Notifications.Model.{Notification, Host}
use asas.Notifications.Feed.{Inbox, FeedState, offset, before, feed_conditions, list_feed}

module _ {ℓ} {A : Type ℓ} where
  take-nil : (n : ℕ) → take n (let none_left : List A = [] in none_left) ≡ []
  take-nil zero = refl
  take-nil (suc n) = refl

  take-offset : (a b : ℕ) (xs : List A) → take a xs ++ take b (offset a xs) ≡ take (a + b) xs
  unfolding offset
  take-offset a b [] = simp take-nil
  take-offset zero b (x ∷ xs) = rw zero-add
  take-offset (suc a) b (x ∷ xs) = rw suc-add (ap (λ r. x ∷ r) (take-offset a b xs))

  take-all : (n : ℕ) (xs : List A) → length xs ≤ n → take n xs ≡ xs
  take-all zero [] h = refl
  take-all (suc n) [] h = refl
  take-all zero (x ∷ xs) h = absurd (omega arith)
  take-all (suc n) (x ∷ xs) h = ap (λ r. x ∷ r) (take-all n xs (omega arith))

  length-select_where : (p : A → Bool) (xs : List A) → length (select_where p xs) ≡ count_where p xs
  unfolding select_where count_where
  length-select_where p [] = refl
  length-select_where p (x ∷ xs) = ground (arith, length-select_where p xs)

  count_where-select_where :
      (q p : A → Bool) (xs : List A)
      → count_where q (select_where p xs) ≡ count_where (λ x. p x && q x) xs
  unfolding select_where count_where
  count_where-select_where q p [] = refl
  count_where-select_where q p (x ∷ xs) = ground (arith, count_where-select_where q p xs)

before-total : (a b : Notification) → before a b ≡ false → before b a ≡ true
before-total a b h = ground (arith, h)

before_trans : (a b c : Notification) → before a b ≡ true → before b c ≡ true → before a c ≡ true
before_trans a b c h k = ground (arith, h, k)

module _ {U R : Type 0} (host : Host U R) (user : U) (state : FeedState) (unread_only : Bool)
    (inbox : Inbox) where
  abbrev pub page_of : ℕ → ℕ → List Notification
  page_of size page = (list_feed host user state unread_only page size inbox).0

  -- The first k pages, one after the other.
  abbrev pub pages : ℕ → ℕ → List Notification
  pages size zero = []
  pages size (suc k) = pages size k ++ page_of size (suc k)

  pages-eq-take :
      (size k : ℕ)
      → pages size k
        ≡ take
            (k * size)
            (sort_by before (select_where (feed_conditions host user state unread_only) inbox))
  unfolding list_feed
  pages-eq-take size zero = rw zero-mul
  pages-eq-take size (suc k) =
      let full =
        sort_by before (select_where (feed_conditions host user state unread_only) inbox) in
      let skipped : (suc k - 1) * size ≡ k * size = ap (λ j. j * size) (omega arith) in
      let longer : k * size + size ≡ suc k * size = grind arith in
      rw skipped (
        rw (pages-eq-take size k) (take-offset (k * size) size full ∙ ap (λ j. take j full) longer))

  -- Reading page after page until the total is reached gives the feed: each row that meets the
  -- conditions as often as the table has it, the newest first, and as many as the total says.
  pub list_feed-pages :
      (size k : ℕ)
      → (list_feed host user state unread_only 1 size inbox).1 ≤ k * size
      → ((p : Notification → Bool)
          → count_where p (pages size k)
            ≡ count_where (λ n. feed_conditions host user state unread_only n && p n) inbox)
        × IsSortedBy before (pages size k)
        × (length (pages size k) ≡ (list_feed host user state unread_only 1 size inbox).1)
  list_feed-pages size k enough =
      let conditions = feed_conditions host user state unread_only in
      let found = select_where conditions inbox in
      let total : length (sort_by before found) ≡ count_where conditions inbox =
        omega (arith, length-sort_by before found, length-select_where conditions inbox) in
      let whole : pages size k ≡ sort_by before found =
        pages-eq-take size k
        ∙ take-all (k * size) (sort_by before found) (unfold list_feed in omega arith) in
      (
        (λ p.
            rw whole
              (count_where-sort_by before p found ∙ count_where-select_where p conditions inbox)),
        rw whole (sort_by-IsSortedBy before before-total before_trans found),
        rw whole (unfold list_feed in total),
      )
