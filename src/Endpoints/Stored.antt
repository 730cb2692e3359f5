-- ===== src/Endpoints/Stored.antt =====
-- internal/core/endpoint.go, what is stored of an input: the check constraints of the table `endpoints`
-- and the widths of its integer columns.
use restest.Base.{
  ℕ, zero, suc, ◌+◌, ◌-◌, ◌%◌, ◌<◌, ◌≡◌, refl, sym, ap, subst, ◌∙◌, inl, inr, true, false, ◌∷◌,
  some, arith, Bytes, same, contains, cut_prefix, Int64, pos, neg, Bool-cases,
}
use native.Mathlib.Nat.{mod-eq_of_lt, mod_self}
use restest.Paths.{normalize_path}
use restest.Forms.Endpoint.{methods, between, min_status_code, max_status_code, max_delay_ms}
use restest.Database.{EndpointRow}
use restest.Database.Narrow.{narrow, signed, half_int16, half_int32}
use restest.Endpoints.{
  EndpointInput, is_collection, with_input, passes_checks, kind_fields, is_absolute,
}
use restest.Endpoints.Accepted.{IsAccepted, IsOfKind}

narrow_zero : (half : ℕ) → 0 < half → narrow half (neg 0) ≡ pos 0
unfolding narrow signed
narrow_zero half h =
    let none_left : 0 % (half + half) ≡ 0 = mod-eq_of_lt (omega arith) in
    let whole : (half + half - 0 % (half + half)) % (half + half) ≡ 0 =
      ap (λ m. m % (half + half)) (omega (arith, none_left)) ∙ mod_self (half + half) in
    rw whole (ground arith)

-- A small number that is not negative fits the column.
narrow_small : (half n : ℕ) → n < half → narrow half (pos n) ≡ pos n
unfolding narrow signed
narrow_small half n h =
    let kept : n % (half + half) ≡ n = mod-eq_of_lt (omega arith) in rw kept (ground arith)

-- The distance of a number from zero.
abbrev size : Int64 → ℕ
size (pos n) = n
size (neg n) = n

between_pos :
    (low high : ℕ) (i : Int64) → between low high i ≡ true → between low high (pos (size i)) ≡ true
between_pos low high (pos n) h = h
between_pos low high (neg n) h = ground arith

narrow-between :
    (half low high : ℕ) (i : Int64)
    → high < half
    → between low high i ≡ true
    → narrow half i ≡ pos (size i)
narrow-between half low high (pos n) k h = narrow_small half n (ground arith)
narrow-between half low high (neg zero) k h = narrow_zero half (omega arith)
narrow-between half low high (neg (suc n)) k h = ground arith

-- The status of a static endpoint and the delay of any are stored as the numbers that they are.
with_input-size :
    (input : EndpointInput) (r : EndpointRow)
    → IsAccepted input
    → ((with_input input r).delay_ms ≡ pos (size input.delay_ms))
      × (is_collection input ≡ false
          → (with_input input r).status_code ≡ some (pos (size input.status_code)))
unfolding with_input
with_input-size input r (common, own) = elim (Bool-cases (is_collection input)) [
  | inl e ↦ rw e (
    narrow-between half_int32 0 max_delay_ms input.delay_ms (omega arith) common.delay_sane,
    λ h. cc,
  )
  | inr e ↦
      let (status, _) = subst (IsOfKind input) e own in
      rw e (
        narrow-between half_int32 0 max_delay_ms input.delay_ms (omega arith) common.delay_sane,
        λ _. ap some (
            narrow-between half_int16 min_status_code max_status_code input.status_code
              (omega arith) status),
      )
]

normalize_path-slash : (path : Bytes) → (s : Bytes) × (normalize_path path ≡ b'/' ∷ s)
unfolding normalize_path
normalize_path-slash path = (_, refl)

with_input-method :
    (input : EndpointInput) (r : EndpointRow) → (with_input input r).method ≡ input.method
unfolding with_input
with_input-method input r = elim (Bool-cases (is_collection input)) [
  | inl e ↦ rw e refl
  | inr e ↦ rw e refl
]

with_input-path :
    (input : EndpointInput) (r : EndpointRow) → (with_input input r).path_pattern ≡ input.path
unfolding with_input
with_input-path input r = elim (Bool-cases (is_collection input)) [
  | inl e ↦ rw e refl
  | inr e ↦ rw e refl
]

with_input-kind_fields :
    (input : EndpointInput) (r : EndpointRow) → kind_fields (with_input input r) ≡ true
unfolding with_input same
with_input-kind_fields input r = elim (Bool-cases (is_collection input)) [
  | inl e ↦ rw e refl
  | inr e ↦ rw e refl
]

passes_checks_of :
    (r : EndpointRow)
    → contains r.method methods ≡ true
    → is_absolute r.path_pattern ≡ true
    → between 0 60000 r.delay_ms ≡ true
    → kind_fields r ≡ true
    → passes_checks r ≡ true
unfolding passes_checks
passes_checks_of r m p d k = rw (m, p, d, k) refl

-- Every row that is written from an accepted input passes the check constraints.
pub with_input-passes_checks :
    (input : EndpointInput) (r : EndpointRow) (path : Bytes)
    → IsAccepted input
    → input.path ≡ normalize_path path
    → passes_checks (with_input input r) ≡ true
unfolding cut_prefix
with_input-passes_checks input r path p h =
    let r' = with_input input r in
    let absolute : is_absolute input.path ≡ true =
      subst (λ s. is_absolute s ≡ true) (sym (h ∙ (normalize_path-slash path).1)) refl in
    passes_checks_of r'
      (subst (λ m. contains m methods ≡ true) (sym (with_input-method input r)) p.0.method_listed)
      (subst (λ m. is_absolute m ≡ true) (sym (with_input-path input r)) absolute)
      (subst (λ d. between 0 60000 d ≡ true) (sym (with_input-size input r p).0)
        (between_pos 0 max_delay_ms input.delay_ms p.0.delay_sane))
      (with_input-kind_fields input r)
