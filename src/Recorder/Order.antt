-- ===== src/Recorder/Order.antt =====
-- The log has the exchanges in the order in which they were recorded.
use restest.Base.{
  ℕ, ◌≡◌, sym, ap, ◌∙◌, subst, Bool, true, false, List, [], ◌∷◌, ◌++◌, append_assoc, append-nil,
  Bool-cases, inl, inr, leb, ltb, length,
}
use restest.Recorder.{
  Options, Recorder, new_recorder, record_exchange, flush, report_drops, drain, receive, tick,
  finish, Step, recording, receiving, ticking, ending, taking, emptied, finishing, Later, at_once,
  and_step, Reached,
}
use restest.Recorder.Counts.{write_out, flush-cases, warn, report_drops-cases}

module _ {A : Type 0} where
  -- The first list has some of the entries of the second, in their order.
  pub data IsSublist : List A → List A → Type 0 where
    sub_nil : IsSublist [] []
    sub_keep : (x : A) {xs ys : List A} → IsSublist xs ys → IsSublist (x ∷ xs) (x ∷ ys)
    sub_drop : (y : A) {xs ys : List A} → IsSublist xs ys → IsSublist xs (y ∷ ys)

  IsSublist-refl : (xs : List A) → IsSublist xs xs
  IsSublist-refl [] = sub_nil
  IsSublist-refl (x ∷ xs) = sub_keep x (IsSublist-refl xs)

  IsSublist-nil : (ys : List A) → IsSublist [] ys
  IsSublist-nil [] = sub_nil
  IsSublist-nil (y ∷ ys) = sub_drop y (IsSublist-nil ys)

  IsSublist-append :
      {xs ys us vs : List A} → IsSublist xs ys → IsSublist us vs → IsSublist (xs ++ us) (ys ++ vs)
  IsSublist-append sub_nil k = k
  IsSublist-append (sub_keep x h) k = sub_keep x (IsSublist-append h k)
  IsSublist-append (sub_drop y h) k = sub_drop y (IsSublist-append h k)

  IsSublist-trans :
      {ys zs : List A} → IsSublist ys zs → {xs : List A} → IsSublist xs ys → IsSublist xs zs
  IsSublist-trans sub_nil h = h
  IsSublist-trans (sub_keep x k) (sub_keep _ h) = sub_keep x (IsSublist-trans k h)
  IsSublist-trans (sub_keep x k) (sub_drop _ h) = sub_drop x (IsSublist-trans k h)
  IsSublist-trans (sub_drop y k) h = sub_drop y (IsSublist-trans k h)

  IsSublist-append_left : (xs ys : List A) → IsSublist xs (ys ++ xs)
  IsSublist-append_left xs [] = IsSublist-refl xs
  IsSublist-append_left xs (y ∷ ys) = sub_drop y (IsSublist-append_left xs ys)

  IsSublist-append_right : (xs ys : List A) → IsSublist xs (xs ++ ys)
  IsSublist-append_right [] ys = IsSublist-nil ys
  IsSublist-append_right (x ∷ xs) ys = sub_keep x (IsSublist-append_right xs ys)

  IsSublist-of_eq : {xs ys : List A} → xs ≡ ys → IsSublist xs ys
  IsSublist-of_eq {xs} e = subst (IsSublist xs) e (IsSublist-refl xs)

module _ (Exchange : Type 0) where
  -- What is in the log or on its way to it.
  abbrev pub content : Recorder Exchange → List Exchange
  content r = r.written ++ (r.batch ++ r.queue)

  -- The second recorder has nothing that the first had not, and in the same order.
  Keeps : Recorder Exchange → Recorder Exchange → Type 0
  Keeps r r' = IsSublist (content r') (content r)

  record_exchange-content :
      (ex : Exchange) (r : Recorder Exchange)
      → IsSublist (content (record_exchange Exchange ex r)) (content r ++ ex ∷ [])
  unfolding record_exchange
  record_exchange-content ex r = elim (Bool-cases (ltb (length r.queue) r.opts.buffer)) [
    | inl e ↦ rw e (
        IsSublist-of_eq (
          ap (λ l. r.written ++ l) (sym (append_assoc r.batch r.queue (ex ∷ [])))
          ∙ sym (append_assoc r.written (r.batch ++ r.queue) (ex ∷ []))))
    | inr e ↦ rw e (IsSublist-append_right (content r) (ex ∷ []))
  ]

  write_out-Keeps : (stored : Bool) (r : Recorder Exchange) → Keeps r (write_out Exchange stored r)
  unfolding write_out Keeps
  write_out-Keeps true r = IsSublist-of_eq (append_assoc r.written r.batch r.queue)
  write_out-Keeps false r =
      IsSublist-append (IsSublist-refl r.written) (IsSublist-append_left r.queue r.batch)

  flush-Keeps : (stored : Bool) (r : Recorder Exchange) → Keeps r (flush Exchange stored r)
  unfolding Keeps
  flush-Keeps stored r = elim (flush-cases Exchange stored r) [
    | inl (_, e) ↦ IsSublist-of_eq (ap content e)
    | inr e ↦ subst (Keeps r) (sym e) (write_out-Keeps stored r)
  ]

  report_drops-content :
      (force : Bool) (now : ℕ) (r : Recorder Exchange)
      → content (report_drops Exchange force now r) ≡ content r
  unfolding warn
  report_drops-content force now r = elim (report_drops-cases Exchange force now r) [
    | inl e ↦ ap content e
    | inr e ↦ ap content e
  ]

  taken-content :
      (ex : Exchange) (exs : List Exchange) (r : Recorder Exchange)
      → r.queue ≡ ex ∷ exs
      → content (record r { queue = exs; batch = r.batch ++ ex ∷ [] }) ≡ content r
  taken-content ex exs r e =
      ap (λ l. r.written ++ l) (append_assoc r.batch (ex ∷ []) exs ∙ ap (λ q. r.batch ++ q) (sym e))

  receive-Keeps :
      (stored : Bool) (ex : Exchange) (exs : List Exchange) (r : Recorder Exchange)
      → r.queue ≡ ex ∷ exs
      → Keeps r (receive Exchange stored ex (record r { queue = exs }))
  unfolding receive Keeps
  receive-Keeps stored ex exs r e =
      let r' : Recorder Exchange = record r { queue = exs; batch = r.batch ++ ex ∷ [] } in
      let same_content = taken-content ex exs r e in
      elim (Bool-cases (leb r.opts.batch (length (r.batch ++ ex ∷ [])))) [
        | inr b ↦ rw b (IsSublist-of_eq same_content)
        | inl b ↦ rw b (IsSublist-trans (IsSublist-of_eq same_content) (flush-Keeps stored r'))
      ]

  Step-content :
      {more : List Exchange} {r r' : Recorder Exchange}
      → Step Exchange r more r'
      → IsSublist (content r') (content r ++ more)
  unfolding tick finish drain Keeps
  Step-content (recording ex r) = record_exchange-content ex r
  Step-content (receiving stored ex exs r on e) =
      subst (IsSublist _) (sym (append-nil (content r))) (receive-Keeps stored ex exs r e)
  Step-content (ticking stored now r on) = subst (IsSublist _) (sym (append-nil (content r))) (
      IsSublist-trans (flush-Keeps stored r)
        (IsSublist-of_eq (report_drops-content false now (flush Exchange stored r))))
  Step-content (ending r on) = IsSublist-of_eq (sym (append-nil (content r)))
  Step-content (taking ex exs r on e) =
      IsSublist-of_eq (taken-content ex exs r e ∙ sym (append-nil (content r)))
  Step-content (emptied r on e) = IsSublist-of_eq (sym (append-nil (content r)))
  Step-content (finishing stored now r on) = subst (IsSublist _) (sym (append-nil (content r))) (
      IsSublist-trans (flush-Keeps stored r)
        (IsSublist-of_eq (report_drops-content true now (flush Exchange stored r))))

  Later-content :
      (r r' : Recorder Exchange) (given : List Exchange)
      → Later Exchange r given r'
      → IsSublist (content r') (content r ++ given)
  Later-content r r' [] at_once = IsSublist-of_eq (sym (append-nil (content r)))
  Later-content r r' given (and_step {given = old} {more = more} {r' = q} later s) =
      IsSublist-trans
        (IsSublist-trans (IsSublist-of_eq (append_assoc (content r) old more))
          (IsSublist-append (Later-content r q old later) (IsSublist-refl more)))
        (Step-content s)

  -- However the turns are taken, the log followed by the batch and the queue has exchanges that were
  -- recorded, each at most as often as it was recorded, in the order in which they were.
  pub Reached-IsSublist :
      (opts : Options) (given : List Exchange) (r : Recorder Exchange)
      → Reached Exchange opts given r
      → IsSublist (content r) given
  unfolding new_recorder
  Reached-IsSublist opts given r reached =
      Later-content (new_recorder Exchange opts) r given reached
