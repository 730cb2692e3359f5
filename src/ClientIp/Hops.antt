-- ===== src/ClientIp/Hops.antt =====
-- `forwardedHops`: the entries of the header, and how many of them are read.
use restest.Base.{
  take_all, ℕ, zero, suc, ◌≤◌, ◌<◌, ◌≡◌, refl, sym, ap, ◌∙◌, true, false, List, [], ◌∷◌, ◌++◌,
  append_assoc, append-nil, arith, leb, leb→le, Bool-cases, inl, inr, if◌then◌else◌, length, take,
  length-append, Bytes, split,
}
use restest.Paths.{trim_space}
use restest.ClientIp.{
  Netip, hops_of, Scan, going, full, max_forwarded_hops, address_part, add_trimmed, add_field,
  scan_fields, scan_values, forwarded_hops,
}

take-append : {A : Type 0} (xs ys : List A) → take (length xs) (xs ++ ys) ≡ xs
take-append [] ys = refl
take-append (x ∷ xs) ys = ap (λ l. x ∷ l) (take-append xs ys)

leb-false : (m n : ℕ) → leb m n ≡ false → n < m
leb-false m n h = ground arith

-- What a loop has that stops as soon as the list is as long as the limit.
abbrev cut : ℕ → List Bytes → Scan
cut m hops = if leb m (length hops) then full (take m hops) else going hops

cut_below : (m : ℕ) (hops : List Bytes) → length hops < m → cut m hops ≡ going hops
cut_below m hops h = ground arith

pub take-append_of_le :
    {A : Type 0} (n : ℕ) (xs ys : List A) → n ≤ length xs → take n (xs ++ ys) ≡ take n xs
take-append_of_le zero xs ys h = refl
take-append_of_le (suc n) [] ys h = absurd (omega arith)
take-append_of_le (suc n) (x ∷ xs) ys h = ap (λ l. x ∷ l) (take-append_of_le n xs ys (omega arith))

cut-append :
    (m : ℕ) (xs ys : List Bytes) → leb m (length xs) ≡ true → cut m (xs ++ ys) ≡ full (take m xs)
cut-append m xs ys h =
    let long = leb→le m (length xs) h in
    ground (arith, take-append_of_le m xs ys long, length-append xs ys)

hops_of-cut : (m : ℕ) (hops : List Bytes) → hops_of (cut m hops) ≡ take m hops
hops_of-cut m hops = elim (Bool-cases (leb m (length hops))) [
  | inl k ↦ ap (λ b. hops_of (if b then full (take m hops) else going hops)) k
  | inr k ↦
      ap (λ b. hops_of (if b then full (take m hops) else going hops)) k
      ∙ sym (take_all m hops (omega (arith, leb-false m (length hops) k)))
]

cut-full :
    (m : ℕ) (e : Bytes) (hops rest : List Bytes)
    → length hops < m
    → leb m (length (hops ++ e ∷ [])) ≡ true
    → full (hops ++ e ∷ []) ≡ cut m (hops ++ e ∷ rest)
cut-full m e hops rest h k =
    let exact : length (hops ++ e ∷ []) ≡ m =
      omega (arith, leb→le m (length (hops ++ e ∷ [])) k, length-append hops (e ∷ [])) in
    ground (
      arith,
      append_assoc hops (e ∷ []) rest,
      take-append (hops ++ e ∷ []) rest,
      length-append (hops ++ e ∷ []) rest,
    )

module _ (net : Netip) where
  abbrev entry : Bytes → List Bytes → List Bytes
  entry [] rest = rest
  entry (c ∷ s) rest = address_part net (c ∷ s) ∷ rest

  -- The addresses of the fields that are not blank.
  unfoldable pub entries_of : List Bytes → List Bytes
  entries_of [] = []
  entries_of (field ∷ fields) = entry (trim_space field) (entries_of fields)

  -- Every address that the values of the header name, in their order.
  unfoldable pub entries : List Bytes → List Bytes
  unfolding entries_of
  entries [] = []
  entries (value ∷ values) = entries_of (split b',' value) ++ entries values

  abbrev bounded : List Bytes → Scan
  bounded hops = cut max_forwarded_hops hops

  -- What the rest of a loop makes of one round.
  abbrev after : List Bytes → Scan → Scan
  after fields (going hops) = scan_fields net fields hops
  after fields (full hops) = full hops

  after-add_trimmed :
      (t : Bytes) (fields hops : List Bytes)
      → length hops < max_forwarded_hops
      → ((h : List Bytes)
          → length h < max_forwarded_hops
          → scan_fields net fields h ≡ bounded (h ++ entries_of fields))
      → after fields (add_trimmed net t hops) ≡ bounded (hops ++ entry t (entries_of fields))
  unfolding add_trimmed
  after-add_trimmed [] fields hops h rest = rest hops h
  after-add_trimmed (c ∷ s) fields hops h rest =
      let e = address_part net (c ∷ s) in
      elim (Bool-cases (leb max_forwarded_hops (length (hops ++ e ∷ [])))) [
        | inl k ↦
            ap (λ b. after fields (if b then full (hops ++ e ∷ []) else going (hops ++ e ∷ []))) k
            ∙ cut-full max_forwarded_hops e hops (entries_of fields) h k
        | inr k ↦
            ap (λ b. after fields (if b then full (hops ++ e ∷ []) else going (hops ++ e ∷ []))) k
            ∙ (rest (hops ++ e ∷ []) (leb-false max_forwarded_hops _ k)
                ∙ ap bounded (append_assoc hops (e ∷ []) (entries_of fields)))
      ]

  scan_fields-entries_of :
      (fields hops : List Bytes)
      → length hops < max_forwarded_hops
      → scan_fields net fields hops ≡ bounded (hops ++ entries_of fields)
  unfolding scan_fields add_field entries_of
  scan_fields-entries_of [] hops h =
      sym (ap bounded (append-nil hops) ∙ cut_below max_forwarded_hops hops h)
  scan_fields-entries_of (field ∷ fields) hops h =
      after-add_trimmed (trim_space field) fields hops h (scan_fields-entries_of fields)

  abbrev then_values : List Bytes → Scan → Scan
  then_values values (going hops) = scan_values net values hops
  then_values values (full hops) = full hops

  then_values-bounded :
      (values found : List Bytes)
      → (length found < max_forwarded_hops
          → scan_values net values found ≡ bounded (found ++ entries values))
      → then_values values (bounded found) ≡ bounded (found ++ entries values)
  then_values-bounded values found rest =
      elim (Bool-cases (leb max_forwarded_hops (length found))) [
        | inl k ↦
            ap
              (λ b.
                then_values values
                  (if b then full (take max_forwarded_hops found) else going found))
              k
            ∙ sym (cut-append max_forwarded_hops found (entries values) k)
        | inr k ↦
            ap
              (λ b.
                then_values values
                  (if b then full (take max_forwarded_hops found) else going found))
              k
            ∙ rest (leb-false max_forwarded_hops (length found) k)
      ]

  scan_values-entries :
      (values hops : List Bytes)
      → length hops < max_forwarded_hops
      → scan_values net values hops ≡ bounded (hops ++ entries values)
  unfolding scan_values entries
  scan_values-entries [] hops h =
      sym (ap bounded (append-nil hops) ∙ cut_below max_forwarded_hops hops h)
  scan_values-entries (value ∷ values) hops h =
      let found = hops ++ entries_of (split b',' value) in
      ap (then_values values) (scan_fields-entries_of (split b',' value) hops h)
      ∙ (then_values-bounded values found (scan_values-entries values found)
          ∙ ap bounded (append_assoc hops (entries_of (split b',' value)) (entries values)))

  -- The hops that are read are the first of the addresses that the header names, sixteen at most.
  pub forwarded_hops-take :
      (values : List Bytes) → forwarded_hops net values ≡ take max_forwarded_hops (entries values)
  unfolding forwarded_hops
  forwarded_hops-take values =
      ap hops_of (scan_values-entries values [] (omega arith))
      ∙ hops_of-cut max_forwarded_hops (entries values)
