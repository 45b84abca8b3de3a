-- ===== src/Audit/Verify.antt =====
-- What the verifier of packages/asas-audit/src/asas_audit/service.py decides.
use asas.Base.{
  ℕ, ◌+◌, ◌≡◌, ◌↔◌, refl, ◌∙◌, String, true, Option, none, some, List, [], ◌∷◌, ◌++◌, arith, length,
}
use mathlib.Core.List.{append-nil, append_assoc}
use asas.Audit.Chain.{
  Bytes, same_bytes, same_hash, Codec, AuditEvent, ChainBreak, is_intact, expected_of, check_row,
  verify_from, verify_rows,
}

pub same_bytes_iff : (a b : Bytes) → (same_bytes a b ≡ true) ↔ (a ≡ b)
unfolding same_bytes
same_bytes_iff [] [] = ground arith
same_bytes_iff [] (b ∷ bs) = ground arith
same_bytes_iff (a ∷ r) [] = ground arith
same_bytes_iff (a ∷ r) (b ∷ bs) = ground (arith, same_bytes_iff r bs)

pub same_hash_iff : (a b : Option Bytes) → (same_hash a b ≡ true) ↔ (a ≡ b)
unfolding same_hash
same_hash_iff none none = ground arith
same_hash_iff none (some b) = ground arith
same_hash_iff (some a) none = ground arith
same_hash_iff (some a) (some b) = ground (arith, same_bytes_iff a b)

pub append_nil_parts {ℓ} : {A : Type ℓ} (xs ys : List A) → xs ++ ys ≡ [] → (xs ≡ []) × (ys ≡ [])
append_nil_parts [] ys e = (refl, e)
append_nil_parts (x ∷ xs) ys e = cc

module _ (codec : Codec) (org : String) where
  -- The specification: each row names the fingerprint before it and carries its own.
  abbrev pub IsChained : Option Bytes → List AuditEvent → Type 0
  IsChained prev [] = Unit
  IsChained prev (r ∷ rs) =
      (r.hash_prev ≡ prev)
      × (r.hash_current ≡ expected_of codec org prev r)
      × IsChained (some r.hash_current) rs

  -- The breaks of a chain, without the loop's accumulator.
  unfoldable pub breaks_of : Option Bytes → List AuditEvent → List ChainBreak
  breaks_of prev [] = []
  breaks_of prev (r ∷ rs) = check_row codec org prev r ++ breaks_of (some r.hash_current) rs

  pub verify_from-breaks :
      (prev : Option Bytes) (rs : List AuditEvent) (n : ℕ) (bs : List ChainBreak)
      → verify_from codec org prev rs n bs ≡ (n + length rs, bs ++ breaks_of prev rs)
  unfolding verify_from breaks_of
  verify_from-breaks prev [] n bs = ground (arith, append-nil bs)
  verify_from-breaks prev (r ∷ rs) n bs =
      verify_from-breaks (some r.hash_current) rs (n + 1) (bs ++ check_row codec org prev r)
      ∙ ground
          (arith, append_assoc bs (check_row codec org prev r) (breaks_of (some r.hash_current) rs))

  pub check_row_iff :
      (prev : Option Bytes) (r : AuditEvent)
      → (check_row codec org prev r ≡ [])
        ↔ ((r.hash_prev ≡ prev) × (r.hash_current ≡ expected_of codec org prev r))
  unfolding check_row
  check_row_iff prev r = ground (
    arith,
    same_hash_iff r.hash_prev prev,
    same_bytes_iff (expected_of codec org prev r) r.hash_current,
  )

  pub breaks_of_iff :
      (prev : Option Bytes) (rs : List AuditEvent) → (breaks_of prev rs ≡ []) ↔ IsChained prev rs
  unfolding breaks_of
  breaks_of_iff prev [] = ((λ e. tt), (λ e. refl))
  breaks_of_iff prev (r ∷ rs) =
      let row = check_row_iff prev r in
      let rest = breaks_of_iff (some r.hash_current) rs in
      (
        (λ e.
            let (a, b) = append_nil_parts (check_row codec org prev r) _ e in
            let (x, y) = row.0 a in (x, y, rest.0 b)),
        (λ (x, y, z). rw (row.1 (x, y)) (rest.1 z)),
      )

  -- The verifier reports no break exactly when each row of the chain names the fingerprint stored
  -- before it, the first one none, and carries the hash of its own columns; and it has checked all.
  pub verify_rows_iff :
      (rows : List AuditEvent)
      → ((is_intact (verify_rows codec org rows) ≡ true) ↔ IsChained none rows)
        × ((verify_rows codec org rows).events_checked ≡ length rows)
  unfolding verify_rows is_intact
  verify_rows_iff rows =
      let loop = verify_from-breaks none rows 0 [] in
      let (from, to) = breaks_of_iff none rows in
      (
        (
          (λ h. from (ground (arith, h, loop))),
          (λ c. let none_ = to c in ground (arith, none_, loop)),
        ),
        ground (arith, loop),
      )

  -- The last fingerprint of a chain.
  abbrev pub last_hash : Option Bytes → List AuditEvent → Option Bytes
  last_hash prev [] = prev
  last_hash prev (r ∷ rs) = last_hash (some r.hash_current) rs

  pub IsChained-append :
      (prev : Option Bytes) (rs : List AuditEvent) (new : AuditEvent)
      → IsChained prev rs
      → new.hash_prev ≡ last_hash prev rs
      → new.hash_current ≡ expected_of codec org (last_hash prev rs) new
      → IsChained prev (rs ++ new ∷ [])
  IsChained-append prev [] new c a b = (a, b, tt)
  IsChained-append prev (r ∷ rs) new c a b =
      (c.0, c.1, IsChained-append (some r.hash_current) rs new c.2 a b)
