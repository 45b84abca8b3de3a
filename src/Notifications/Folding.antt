-- ===== src/Notifications/Folding.antt =====
-- What the coalescing of packages/asas-notifications may rewrite.
use asas.Base.{
  select_where, ℕ, ◌≤◌, ◌<◌, ◌≡◌, refl, ◌∙◌, Bool, true, false, some, List, [], ◌∷◌, arith, not,
  ◌&&◌, str_eq, update_where, count_where, first_where, sort_by, Bool-cases, Option-cases, inl, inr,
  All, update_where-none, count_where-update, count_where-hit, count_where-sort_by,
  count_where_mono, eq_iff, subst, sym, ◌⊎◌,
}
use asas.Notifications.Model.{Notification, Host}
use asas.Notifications.Feed.{Inbox, has_id, unread, in_inbox}
use asas.Notifications.Emit.{Emit, Axes, folds, folded, newer, coalesce}

-- No two rows share an id.
abbrev pub HasUniqueIds : Inbox → Type 0
HasUniqueIds inbox = (id : ℕ) → count_where (has_id id) inbox ≤ 1

-- An update of the one row of an id, which meets a condition, leaves alone what no such row is.
select_where-update-one :
    (q r : Notification → Bool) (id : ℕ) (f : Notification → Notification) (xs : Inbox)
    → ((n : Notification) → r n ≡ true → q n ≡ false)
    → ((n : Notification) → r n ≡ true → q (f n) ≡ false)
    → count_where (has_id id) xs ≤ 1
    → 0 < count_where (λ n. r n && has_id id n) xs
    → select_where q (update_where (has_id id) f xs) ≡ select_where q xs
unfolding select_where update_where count_where
select_where-update-one q r id f [] h k one some_ = refl
select_where-update-one q r id f (x ∷ xs) h k one some_ = elim (Bool-cases (has_id id x)) [
  | inl e ↦
      let none_ : count_where (has_id id) xs ≡ 0 = ground (arith, e, one) in
      let fewer =
        count_where_mono (λ n. r n && has_id id n) (has_id id) xs (λ n g. ground (arith, g)) in
      let met : r x ≡ true = ground (arith, e, some_, none_, fewer) in
      let same = update_where-none (has_id id) f xs none_ in
      ground (arith, e, same, h x met, k x met)
  | inr e ↦
      let rest =
        select_where-update-one q r id f xs h k (ground (arith, e, one))
          (ground (arith, e, some_)) in
      ground (arith, e, rest)
]

-- What an emit must not touch: what is read, archived, or of another organisation.
abbrev pub settled_row : {U R : Type 0} → Host U R → U → Notification → Bool
settled_row host org n = not (unread n && in_inbox n && str_eq n.org_id (host.text_of org))

-- A row after an emit and what it was: the same row, or one that was live and of the organisation, is of
-- a recipient who may know, and is still that recipient's row, of that organisation, unread and not
-- archived, under its id.
abbrev pub IsFoldedFrom :
    {U R : Type 0} → Host U R → U → (U → Type 0) → Notification → Notification → Type 0
IsFoldedFrom {U} host org May old n =
    (n ≡ old)
    ⊎ ((settled_row host org old ≡ false)
        × (n.id ≡ old.id)
        × (n.user_id ≡ old.user_id)
        × (n.org_id ≡ old.org_id)
        × (n.read_at ≡ old.read_at)
        × (n.archived_at ≡ old.archived_at)
        × ((u : U) × May u × (old.user_id ≡ host.text_of u)))

-- Row by row, and no row more or less.
pub IsKept : {U R : Type 0} → Host U R → U → (U → Type 0) → Inbox → Inbox → Type 0
IsKept host org May [] [] = Unit {0}
IsKept host org May [] (y ∷ ys) = ⊥
IsKept host org May (x ∷ xs) [] = ⊥
IsKept host org May (x ∷ xs) (y ∷ ys) = IsFoldedFrom host org May x y × IsKept host org May xs ys

module _ {U R : Type 0} (host : Host U R) (org : U) (May : U → Type 0) where
  pub IsKept-refl : (xs : Inbox) → IsKept host org May xs xs
  unfolding IsKept
  IsKept-refl [] = tt
  IsKept-refl (x ∷ xs) = (inl refl, IsKept-refl xs)

  IsFoldedFrom-trans :
      (x y z : Notification)
      → IsFoldedFrom host org May x y
      → IsFoldedFrom host org May y z
      → IsFoldedFrom host org May x z
  IsFoldedFrom-trans x y z (inl p) h = subst (λ w. IsFoldedFrom host org May w z) p h
  IsFoldedFrom-trans x y z (inr h) (inl q) =
      subst (λ w. IsFoldedFrom host org May x w) (sym q) (inr h)
  IsFoldedFrom-trans x y z (inr (live, a, b, c, d, f, may)) (inr (_, a', b', c', d', f', _)) =
      inr (live, a' ∙ a, b' ∙ b, c' ∙ c, d' ∙ d, f' ∙ f, may)

  IsKept-trans :
      (xs ys zs : Inbox)
      → IsKept host org May xs ys
      → IsKept host org May ys zs
      → IsKept host org May xs zs
  unfolding IsKept
  IsKept-trans [] [] zs h k = k
  IsKept-trans [] (y ∷ ys) zs h k = absurd h
  IsKept-trans (x ∷ xs) [] zs h k = absurd h
  IsKept-trans (x ∷ xs) (y ∷ ys) [] h k = absurd k
  IsKept-trans (x ∷ xs) (y ∷ ys) (z ∷ zs) h k =
      (IsFoldedFrom-trans x y z h.0 k.0, IsKept-trans xs ys zs h.1 k.1)

  -- An update of the one row of an id, which meets a condition under which the update is allowed.
  IsKept-update-one :
      (r : Notification → Bool) (id : ℕ) (f : Notification → Notification) (xs : Inbox)
      → ((n : Notification) → r n ≡ true → IsFoldedFrom host org May n (f n))
      → count_where (has_id id) xs ≤ 1
      → 0 < count_where (λ n. r n && has_id id n) xs
      → IsKept host org May xs (update_where (has_id id) f xs)
  unfolding update_where count_where IsKept
  IsKept-update-one r id f [] h one some_ = tt
  IsKept-update-one r id f (x ∷ xs) h one some_ = elim (Bool-cases (has_id id x)) [
    | inl e ↦
        let none_ : count_where (has_id id) xs ≡ 0 = ground (arith, e, one) in
        let fewer =
          count_where_mono (λ n. r n && has_id id n) (has_id id) xs (λ n g. ground (arith, g)) in
        let met : r x ≡ true = ground (arith, e, some_, none_, fewer) in
        rw (e, update_where-none (has_id id) f xs none_) (h x met, IsKept-refl xs)
    | inr e ↦ rw e (
      inl refl,
      IsKept-update-one r id f xs h (ground (arith, e, one)) (ground (arith, e, some_)),
    )
  ]

module _ {U R : Type 0} (host : Host U R) (e : Emit U R) (now : ℕ) (axes : Axes) (org : U) where
  folds-live :
      (u : U) (n : Notification) → folds host e org u n ≡ true → settled_row host org n ≡ false
  unfolding folds
  folds-live u n h = ground (arith, h)

  folds-user : (u : U) (n : Notification) → folds host e org u n ≡ true → n.user_id ≡ host.text_of u
  unfolding folds
  folds-user u n h = (eq_iff n.user_id (host.text_of u)).0 (ground (arith, h))

  folded-live :
      (u : U) (n : Notification)
      → folds host e org u n ≡ true
      → settled_row host org (folded host e now axes n) ≡ false
  folded-live u n h = folds-live u n h

  fold-keeps :
      (u : U) (inbox : Inbox) (n : Notification)
      → HasUniqueIds inbox
      → first_where (folds host e org u) (sort_by newer inbox) ≡ some n
      → select_where
          (settled_row host org)
          (update_where (has_id n.id) (folded host e now axes) inbox)
        ≡ select_where (settled_row host org) inbox
  fold-keeps u inbox n ids found =
      let hit =
        count_where-hit (folds host e org u) (has_id n.id) (sort_by newer inbox) n found
          (ground arith) in
      select_where-update-one (settled_row host org) (folds host e org u) n.id
        (folded host e now axes) inbox (folds-live u) (folded-live u) (ids n.id)
        (rw (count_where-sort_by newer (λ m. folds host e org u m && has_id n.id m) inbox) at hit)

  fold-HasUniqueIds :
      (inbox : Inbox) (id : ℕ)
      → HasUniqueIds inbox
      → HasUniqueIds (update_where (has_id id) (folded host e now axes) inbox)
  fold-HasUniqueIds inbox id ids j = omega (
    arith,
    ids j,
    count_where-update (has_id j) (has_id id) (folded host e now axes) inbox (λ n h. refl),
  )

  pub coalesce-keeps :
      (users : List U) (inbox : Inbox)
      → HasUniqueIds inbox
      → select_where (settled_row host org) (coalesce host e now axes org users inbox).0
        ≡ select_where (settled_row host org) inbox
  unfolding coalesce
  coalesce-keeps [] inbox ids = refl
  coalesce-keeps (u ∷ us) inbox ids =
      elim (Option-cases (first_where (folds host e org u) (sort_by newer inbox))) [
        | inl q ↦ rw (q, coalesce) (coalesce-keeps us inbox ids)
        | inr (n, q) ↦
            let step = fold-keeps u inbox n ids q in
            rw (q, coalesce)
              (coalesce-keeps us (update_where (has_id n.id) (folded host e now axes) inbox)
                  (fold-HasUniqueIds inbox n.id ids)
                ∙ step)
      ]

  fold-IsKept :
      (May : U → Type 0) (u : U) (inbox : Inbox) (n : Notification)
      → HasUniqueIds inbox
      → May u
      → first_where (folds host e org u) (sort_by newer inbox) ≡ some n
      → IsKept host org May inbox (update_where (has_id n.id) (folded host e now axes) inbox)
  fold-IsKept May u inbox n ids may found =
      let hit =
        count_where-hit (folds host e org u) (has_id n.id) (sort_by newer inbox) n found
          (ground arith) in
      IsKept-update-one host org May (folds host e org u) n.id (folded host e now axes) inbox
        (λ m h. inr (folds-live u m h, refl, refl, refl, refl, refl, (u, may, folds-user u m h)))
        (ids n.id)
        (rw (count_where-sort_by newer (λ m. folds host e org u m && has_id n.id m) inbox) at hit)

  -- What coalescing does to the rows, where all that it is given may know.
  pub coalesce-IsKept :
      (May : U → Type 0) (users : List U) (inbox : Inbox)
      → HasUniqueIds inbox
      → All May users
      → IsKept host org May inbox (coalesce host e now axes org users inbox).0
  unfolding coalesce
  coalesce-IsKept May [] inbox ids may = IsKept-refl host org May inbox
  coalesce-IsKept May (u ∷ us) inbox ids may =
      elim (Option-cases (first_where (folds host e org u) (sort_by newer inbox))) [
        | inl q ↦ rw (q, coalesce) (coalesce-IsKept May us inbox ids may.1)
        | inr (n, q) ↦
            let grown = update_where (has_id n.id) (folded host e now axes) inbox in
            rw (q, coalesce)
              (IsKept-trans host org May inbox grown (coalesce host e now axes org us grown).0
                (fold-IsKept May u inbox n ids may.0 q)
                (coalesce-IsKept May us grown (fold-HasUniqueIds inbox n.id ids) may.1))
      ]

  -- Those for whom nothing was folded are among those who were addressed.
  pub coalesce-All {ℓ} :
      (P : U → Type ℓ) (users : List U) (inbox : Inbox)
      → All P users
      → All P (coalesce host e now axes org users inbox).2
  unfolding coalesce
  coalesce-All P [] inbox h = tt
  coalesce-All P (u ∷ us) inbox h =
      elim (Option-cases (first_where (folds host e org u) (sort_by newer inbox))) [
        | inl q ↦ rw (q, coalesce) (h.0, coalesce-All P us inbox h.1)
        | inr (n, q) ↦
            rw (q, coalesce)
              (coalesce-All P us (update_where (has_id n.id) (folded host e now axes) inbox) h.1)
      ]
