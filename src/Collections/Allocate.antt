-- ===== src/Collections/Allocate.antt =====
-- `allocateSeedID` ends, and what it hands out is free.
use restest.Base.{
  ℕ, zero, suc, ◌≤◌, ◌<◌, ◌≡◌, refl, sym, ap, ◌∙◌, ◌≢◌, true, false, List, [], ◌∷◌, arith, length,
  if◌then◌else◌, Bytes, same, same_iff, contains, format_int, format_int-injective, Bool-cases, inl,
  inr,
}
use restest.Collections.{next_free, allocate_seed_id, serial}

unfoldable pub remove : Bytes → List Bytes → List Bytes
unfolding same
remove x [] = []
remove x (y ∷ ys) = let rest = remove x ys in if same y x then rest else y ∷ rest

contains-remove : (x y : Bytes) (ys : List Bytes) → x ≢ y → contains y (remove x ys) ≡ contains y ys
unfolding remove contains
contains-remove x y [] h = refl
contains-remove x y (z ∷ ys) h =
    ground (arith, same_iff z x, same_iff z y, contains-remove x y ys h)

length-remove : (x : Bytes) (ys : List Bytes) → length (remove x ys) ≤ length ys
unfolding remove
length-remove x [] = omega arith
length-remove x (y ∷ ys) = ground (arith, length-remove x ys)

length-remove_there :
    (x : Bytes) (ys : List Bytes) → contains x ys ≡ true → length (remove x ys) < length ys
unfolding remove contains
length-remove_there x [] h = cc
length-remove_there x (y ∷ ys) h = ground (arith, length-remove x ys, length-remove_there x ys)

next_free-above : (fuel counter : ℕ) (taken : List Bytes) → counter < next_free fuel counter taken
unfolding next_free
next_free-above zero counter taken = omega arith
next_free-above (suc fuel) counter taken = ground (arith, next_free-above fuel (suc counter) taken)

-- A text that is no number behind the counter does not matter to the search.
next_free-remove :
    (fuel counter : ℕ) (x : Bytes) (taken : List Bytes)
    → ((n : ℕ) → counter < n → x ≢ format_int n)
    → next_free fuel counter (remove x taken) ≡ next_free fuel counter taken
unfolding next_free
next_free-remove zero counter x taken h = refl
next_free-remove (suc fuel) counter x taken h = ground (
  arith,
  contains-remove x (format_int (suc counter)) taken (h (suc counter) (omega arith)),
  next_free-remove fuel (suc counter) x taken (λ n l. h n (omega arith)),
)

beyond : (m n : ℕ) → m < n → format_int m ≢ format_int n
beyond m n h e = omega (arith, format_int-injective m n e)

next_free-stop :
    (fuel counter : ℕ) (taken : List Bytes)
    → contains (format_int (suc counter)) taken ≡ false
    → next_free (suc fuel) counter taken ≡ suc counter
unfolding next_free
next_free-stop fuel counter taken e = ground arith

next_free-step :
    (fuel counter : ℕ) (taken : List Bytes)
    → contains (format_int (suc counter)) taken ≡ true
    → next_free (suc fuel) counter taken ≡ next_free fuel (suc counter) taken
unfolding next_free
next_free-step fuel counter taken e = ground arith

-- As many rounds as there are identifiers taken are enough.
next_free_free :
    (fuel counter : ℕ) (taken : List Bytes)
    → length taken ≤ fuel
    → contains (format_int (next_free fuel counter taken)) taken ≡ false
unfolding contains
next_free_free zero counter [] h = refl
next_free_free zero counter (x ∷ taken) h = absurd (omega arith)
next_free_free (suc fuel) counter taken h =
    elim (Bool-cases (contains (format_int (suc counter)) taken)) [
      | inr e ↦ ap (λ n. contains (format_int n) taken) (next_free-stop fuel counter taken e) ∙ e
      | inl e ↦
          let x = format_int (suc counter) in
          let r = next_free fuel (suc counter) taken in
          ap (λ n. contains (format_int n) taken) (next_free-step fuel counter taken e)
          ∙ (sym (
                contains-remove x (format_int r) taken
                  (beyond (suc counter) r (next_free-above fuel (suc counter) taken)))
              ∙ (ap (λ n. contains (format_int n) (remove x taken))
                    (sym (next_free-remove fuel (suc counter) x taken (beyond (suc counter))))
                  ∙ next_free_free fuel (suc counter) (remove x taken)
                      (omega (arith, length-remove_there x taken e))))
    ]

-- The identifier that is allocated is none of those taken, and the search for it ends.
pub allocate_seed_id_free :
    (fresh : Bytes) (counter : ℕ) (taken : List Bytes)
    → contains (allocate_seed_id serial fresh counter taken).0 taken ≡ false
unfolding allocate_seed_id
allocate_seed_id_free fresh counter taken =
    next_free_free (length taken) counter taken (omega arith)
