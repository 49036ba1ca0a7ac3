-- ===== src/Conf/Retention.antt =====
-- conf/retention.go: the archives of a metric. `int` values are natural numbers, and the products of
-- `MaxRetention` are taken to fit an int.
use native.Mathlib.Nat.{div-add-mod', mul_assoc, mul-mod_left}
use metrictank.Common.{
  ℕ, ◌*◌, ◌/◌, ◌%◌, ◌<◌, ◌≡◌, refl, sym, ap, ◌∙◌, not, List, [], ◌∷◌, leb, ltb, ◌==◌, if◌then◌else◌,
  arith, All, length,
}

-- `Retention`.
pub record Retention : Type 0 where
  pub seconds_per_point : ℕ
  pub number_of_points : ℕ
  pub chunk_span : ℕ
  pub num_chunks : ℕ
  pub ready : ℕ

-- `MaxRetention`.
abbrev pub max_retention : Retention → ℕ
max_retention r = r.seconds_per_point * r.number_of_points

pub data Error : Type 0 where
  no_retentions not_lower_resolution not_divisible not_longer too_few_points : Error

-- What `Validate` returns; the division by a period of 0 panics.
pub data Outcome : Type 0 where
  valid panic : Outcome
  invalid : Error → Outcome

-- The tests of a round of the loop, for two archives that follow each other.
unfoldable pub validate_pair : Retention → Retention → Outcome
validate_pair prev ret =
    if leb ret.seconds_per_point prev.seconds_per_point
    then invalid not_lower_resolution
    else if prev.seconds_per_point == 0
    then panic
    else if not (ret.seconds_per_point % prev.seconds_per_point == 0)
    then invalid not_divisible
    else if leb (max_retention ret) (max_retention prev)
    then invalid not_longer
    else if ltb prev.number_of_points (ret.seconds_per_point / prev.seconds_per_point)
    then invalid too_few_points
    else valid

-- The loop of `Validate`.
unfoldable pub validate_from : Retention → List Retention → Outcome
unfolding validate_pair
validate_from prev [] = valid
validate_from prev (ret ∷ rets) = elim (validate_pair prev ret) [
  | valid ↦ validate_from ret rets
  | panic ↦ panic
  | invalid e ↦ invalid e
]

-- `Validate`.
unfoldable pub validate : List Retention → Outcome
unfolding validate_from
validate [] = invalid no_retentions
validate (r ∷ rets) = validate_from r rets

-- An archive that `r` can be consolidated to.
pub record Coarser (r s : Retention) : Type 0 where
  pub lower : r.seconds_per_point < s.seconds_per_point
  pub divides : s.seconds_per_point % r.seconds_per_point ≡ 0
  pub longer : max_retention r < max_retention s

-- Every archive is coarser than every one before it.
abbrev pub Nested : List Retention → Type 0
Nested [] = Unit
Nested (r ∷ rets) = All (Coarser r) rets × Nested rets

module _ (r s : Retention) (e : validate_pair r s ≡ valid) where
  is_lower : r.seconds_per_point < s.seconds_per_point
  unfolding validate_pair
  is_lower = ground arith

  is_multiple : s.seconds_per_point % r.seconds_per_point ≡ 0
  unfolding validate_pair
  is_multiple = ground arith

  is_longer : max_retention r < max_retention s
  unfolding validate_pair
  is_longer = ground arith

  pair-Coarser : Coarser r s
  pair-Coarser = record { lower = is_lower; divides = is_multiple; longer = is_longer }

divides_trans : (p r s : ℕ) → r % p ≡ 0 → s % r ≡ 0 → s % p ≡ 0
divides_trans p r s e f =
    let a : r ≡ r / p * p = omega (arith, e, div-add-mod' r p) in
    let b : s ≡ s / r * r = omega (arith, f, div-add-mod' s r) in
    let c : s ≡ s / r * (r / p) * p =
      b ∙ ap (λ k. s / r * k) a ∙ sym (mul_assoc (s / r) (r / p) p) in
    ap (λ k. k % p) c ∙ mul-mod_left (s / r * (r / p)) p

Coarser-trans : (p r s : Retention) → Coarser p r → Coarser r s → Coarser p s
Coarser-trans p r s a b = record {
  lower = omega (arith, a.lower, b.lower);
  divides = divides_trans _ _ _ a.divides b.divides;
  longer = omega (arith, a.longer, b.longer);
}

All-Coarser :
    (p r : Retention) (rets : List Retention)
    → Coarser p r
    → All (Coarser r) rets
    → All (Coarser p) rets
All-Coarser p r [] c h = tt
All-Coarser p r (s ∷ rets) c h = (Coarser-trans p r s c h.0, All-Coarser p r rets c h.1)

validate_from-Nested :
    (r : Retention) (rets : List Retention) → validate_from r rets ≡ valid → Nested (r ∷ rets)
unfolding validate_from
validate_from-Nested r [] e = (tt, tt)
validate_from-Nested r (s ∷ rets) e =
    by_pair (validate_pair r s) refl e (λ h. validate_from-Nested s rets h)
  where
    by_pair :
        (o : Outcome)
        → validate_pair r s ≡ o
        → elim o [ valid ↦ validate_from s rets | panic ↦ panic | invalid x ↦ invalid x ] ≡ valid
        → (validate_from s rets ≡ valid → Nested (s ∷ rets))
        → Nested (r ∷ s ∷ rets)
    by_pair valid p h ih =
        let c = pair-Coarser r s p in let rest = ih h in ((c, All-Coarser r s rets c rest.0), rest)
    by_pair panic p h ih = cc
    by_pair (invalid x) p h ih = cc

-- `Validate` accepts only lists with an archive, in which every archive is coarser than each of those
-- before it, not only than the one right before: its period is longer and a multiple of theirs, and it
-- reaches further back.
pub validate-Nested :
    (rets : List Retention) → validate rets ≡ valid → (0 < length rets) × Nested rets
unfolding validate
validate-Nested [] e = absurd (refused e)
  where
    refused : invalid no_retentions ≡ valid → ⊥
    refused e = cc
validate-Nested (r ∷ rets) e = (omega arith, validate_from-Nested r rets e)
