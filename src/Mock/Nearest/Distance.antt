-- ===== src/Mock/Nearest/Distance.antt =====
-- internal/mock/nearest.go, `editDistance`: the two-row loop computes the least number of edits.
use mathlib.Core.List.{reverse, reverse_aux, reverse-reverse}
use native.Mathlib.Nat.{add-zero, zero-add}
use restest.Base.{
  ℕ, zero, suc, ◌+◌, ◌≤◌, ◌≡◌, refl, sym, ap, ◌∙◌, ◌⊎◌, inl, inr, List, [], ◌∷◌, arith, length, ltb,
  Bool-cases,
}
use restest.Mock.Nearest.{
  cell, row_from, next_row, rows_from, first_row, last_entry, distance_rows, edit_distance,
}

-- The recursive definition, at the front of the lists.
levenshtein : List ℕ → List ℕ → ℕ
levenshtein [] bs = length bs
levenshtein (a ∷ as_) [] = suc (length as_)
levenshtein (a ∷ as_) (b ∷ bs) =
    cell a b (levenshtein (a ∷ as_) bs) (levenshtein as_ (b ∷ bs)) (levenshtein as_ bs)

levenshtein-nil : (as_ : List ℕ) → levenshtein as_ [] ≡ length as_
unfolding levenshtein
levenshtein-nil [] = refl
levenshtein-nil (a ∷ as_) = refl

-- The entries of a row behind the column `rb`; the letters of rows and columns are kept reversed.
row_tail : List ℕ → List ℕ → List ℕ → List ℕ
row_tail ra rb [] = []
row_tail ra rb (b ∷ bs) = levenshtein ra (b ∷ rb) ∷ row_tail ra (b ∷ rb) bs

row_from-row_tail :
    (a : ℕ) (ra rb bs : List ℕ)
    → row_from a (levenshtein (a ∷ ra) rb) (levenshtein ra rb) bs (row_tail ra rb bs)
      ≡ row_tail (a ∷ ra) rb bs
unfolding row_from row_tail levenshtein
row_from-row_tail a ra rb [] = refl
row_from-row_tail a ra rb (b ∷ bs) =
    ap (λ l. levenshtein (a ∷ ra) (b ∷ rb) ∷ l) (row_from-row_tail a ra (b ∷ rb) bs)

first_row-row_tail :
    (rb bs : List ℕ) → first_row (length rb) bs ≡ levenshtein [] rb ∷ row_tail [] rb bs
unfolding first_row row_tail levenshtein
first_row-row_tail rb [] = refl
first_row-row_tail rb (b ∷ bs) = ap (λ l. length rb ∷ l) (first_row-row_tail (b ∷ rb) bs)

rows_from-row_tail :
    (as_ ra bs : List ℕ)
    → rows_from (length ra) as_ bs (length ra ∷ row_tail ra [] bs)
      ≡ length (reverse_aux as_ ra) ∷ row_tail (reverse_aux as_ ra) [] bs
unfolding rows_from next_row
rows_from-row_tail [] ra bs = refl
rows_from-row_tail (a ∷ as_) ra bs = ground (
  arith,
  levenshtein-nil (a ∷ ra),
  levenshtein-nil ra,
  row_from-row_tail a ra [] bs,
  rows_from-row_tail as_ (a ∷ ra) bs,
)

last_entry-row_tail :
    (ra rb bs : List ℕ)
    → last_entry (levenshtein ra rb ∷ row_tail ra rb bs) ≡ levenshtein ra (reverse_aux bs rb)
unfolding last_entry row_tail
last_entry-row_tail ra rb [] = refl
last_entry-row_tail ra rb (b ∷ bs) = last_entry-row_tail ra (b ∷ rb) bs

length-reverse_aux : (xs ys : List ℕ) → length (reverse_aux xs ys) ≡ length xs + length ys
length-reverse_aux [] ys = omega arith
length-reverse_aux (x ∷ xs) ys = omega (arith, length-reverse_aux xs (x ∷ ys))

distance_rows-levenshtein :
    (ar br : List ℕ) → distance_rows ar br ≡ levenshtein (reverse ar) (reverse br)
unfolding distance_rows levenshtein
distance_rows-levenshtein ar [] =
    sym (levenshtein-nil (reverse ar) ∙ (length-reverse_aux ar [] ∙ omega arith))
distance_rows-levenshtein ar (b ∷ bs) =
    ap (λ l. last_entry (rows_from 0 ar (b ∷ bs) l)) (first_row-row_tail [] (b ∷ bs))
    ∙ (ap last_entry (rows_from-row_tail ar [] (b ∷ bs))
        ∙ (ap (λ n. last_entry (n ∷ row_tail (reverse ar) [] (b ∷ bs)))
              (sym (levenshtein-nil (reverse ar)))
            ∙ last_entry-row_tail (reverse ar) [] (b ∷ bs)))

add_suc_swap : (n m : ℕ) → suc n + m ≡ n + suc m
add_suc_swap n m = omega arith

-- `n` edits of one letter each lead from the first list to the second.
pub data Edits : List ℕ → List ℕ → ℕ → Type 0 where
  stop : Edits [] [] zero
  keep : {a b n : ℕ} {as_ bs : List ℕ} → a ≡ b → Edits as_ bs n → Edits (a ∷ as_) (b ∷ bs) n
  change : {a b n : ℕ} {as_ bs : List ℕ} → Edits as_ bs n → Edits (a ∷ as_) (b ∷ bs) (suc n)
  remove : {a n : ℕ} {as_ bs : List ℕ} → Edits as_ bs n → Edits (a ∷ as_) bs (suc n)
  add : {b n : ℕ} {as_ bs : List ℕ} → Edits as_ bs n → Edits as_ (b ∷ bs) (suc n)

levenshtein_remove : (a : ℕ) (as_ bs : List ℕ) → levenshtein (a ∷ as_) bs ≤ levenshtein as_ bs + 1
unfolding levenshtein
levenshtein_remove a as_ [] = omega (arith, levenshtein-nil as_)
levenshtein_remove a as_ (b ∷ bs) = omega arith

levenshtein_add : (b : ℕ) (as_ bs : List ℕ) → levenshtein as_ (b ∷ bs) ≤ levenshtein as_ bs + 1
unfolding levenshtein
levenshtein_add b [] bs = omega arith
levenshtein_add b (a ∷ as_) bs = omega arith

levenshtein_least : {as_ bs : List ℕ} {n : ℕ} → Edits as_ bs n → levenshtein as_ bs ≤ n
unfolding levenshtein
levenshtein_least stop = omega arith
levenshtein_least (keep e d) = ground (arith, levenshtein_least d)
levenshtein_least (change d) = ground (arith, levenshtein_least d)
levenshtein_least (remove {a} {n} {as_} {bs} d) =
    omega (arith, levenshtein_remove a as_ bs, levenshtein_least d)
levenshtein_least (add {b} {n} {as_} {bs} d) =
    omega (arith, levenshtein_add b as_ bs, levenshtein_least d)

cell_cases :
    (a b left above diagonal : ℕ)
    → (cell a b left above diagonal ≡ suc left)
      ⊎ ((cell a b left above diagonal ≡ suc above)
          ⊎ (((a ≡ b) × (cell a b left above diagonal ≡ diagonal))
              ⊎ (cell a b left above diagonal ≡ suc diagonal)))
cell_cases a b left above diagonal = ground arith

levenshtein-Edits : (as_ bs : List ℕ) → Edits as_ bs (levenshtein as_ bs)
unfolding levenshtein
levenshtein-Edits [] [] = stop
levenshtein-Edits [] (b ∷ bs) = add (levenshtein-Edits [] bs)
levenshtein-Edits (a ∷ as_) [] = remove (rw (← levenshtein-nil as_) (levenshtein-Edits as_ []))
levenshtein-Edits (a ∷ as_) (b ∷ bs) =
    elim (cell_cases a b (levenshtein (a ∷ as_) bs) (levenshtein as_ (b ∷ bs))
      (levenshtein as_ bs)) [
        | inl e ↦ rw e (add (levenshtein-Edits (a ∷ as_) bs))
        | inr (inl e) ↦ rw e (remove (levenshtein-Edits as_ (b ∷ bs)))
        | inr (inr (inl (same, e))) ↦ rw e (keep same (levenshtein-Edits as_ bs))
        | inr (inr (inr e)) ↦ rw e (change (levenshtein-Edits as_ bs))
      ]

-- Edits of two texts, then of what is in front of them.
Edits-reverse_aux :
    {as_ bs : List ℕ} {n : ℕ}
    → Edits as_ bs n
    → (cs ds : List ℕ) (m : ℕ) → Edits cs ds m
    → Edits (reverse_aux as_ cs) (reverse_aux bs ds) (n + m)
Edits-reverse_aux stop cs ds m e = rw zero-add e
Edits-reverse_aux (keep {a} {b} same d) cs ds m e =
    Edits-reverse_aux d (a ∷ cs) (b ∷ ds) m (keep same e)
Edits-reverse_aux (change {a} {b} {n} d) cs ds m e =
    rw (add_suc_swap n m) (Edits-reverse_aux d (a ∷ cs) (b ∷ ds) (suc m) (change e))
Edits-reverse_aux (remove {a} {n} d) cs ds m e =
    rw (add_suc_swap n m) (Edits-reverse_aux d (a ∷ cs) ds (suc m) (remove e))
Edits-reverse_aux (add {b} {n} d) cs ds m e =
    rw (add_suc_swap n m) (Edits-reverse_aux d cs (b ∷ ds) (suc m) (add e))

Edits-reverse : {as_ bs : List ℕ} {n : ℕ} → Edits as_ bs n → Edits (reverse as_) (reverse bs) n
Edits-reverse {n} d = rw add-zero at (Edits-reverse_aux d [] [] 0 stop)

Edits-flip : {as_ bs : List ℕ} {n : ℕ} → Edits as_ bs n → Edits bs as_ n
Edits-flip stop = stop
Edits-flip (keep same d) = keep (sym same) (Edits-flip d)
Edits-flip (change d) = change (Edits-flip d)
Edits-flip (remove d) = add (Edits-flip d)
Edits-flip (add d) = remove (Edits-flip d)

-- `n` is the least number of edits.
abbrev pub IsDistance : List ℕ → List ℕ → ℕ → Type 0
IsDistance as_ bs n = Edits as_ bs n × ((m : ℕ) → Edits as_ bs m → n ≤ m)

distance_rows-IsDistance : (ar br : List ℕ) → IsDistance ar br (distance_rows ar br)
distance_rows-IsDistance ar br =
    let e = distance_rows-levenshtein ar br in
    let back : Edits (reverse (reverse ar)) (reverse (reverse br)) (distance_rows ar br) =
      Edits-reverse {as_ = reverse ar} {bs = reverse br}
        (rw e (levenshtein-Edits (reverse ar) (reverse br))) in
    (
      rw (reverse-reverse ar, reverse-reverse br) at back,
      λ m d. omega (arith, e, levenshtein_least (Edits-reverse d)),
    )

-- The distance of two texts is the least number of letters to insert, remove or change that lead
-- from the one to the other; the exchange of the arguments, by which the longer text gives the
-- rows, does not change it.
pub edit_distance-IsDistance : (ar br : List ℕ) → IsDistance ar br (edit_distance ar br)
unfolding edit_distance
edit_distance-IsDistance ar br = elim (Bool-cases (ltb (length ar) (length br))) [
  | inr h ↦ rw h (distance_rows-IsDistance ar br)
  | inl h ↦
      let (script, least) = distance_rows-IsDistance br ar in
      rw h (Edits-flip script, λ m d. least m (Edits-flip d))
]
