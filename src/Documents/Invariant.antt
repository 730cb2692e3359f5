-- ===== src/Documents/Invariant.antt =====
-- What every request keeps: one document for each identifier, and the identifier in each document.
use restest.Base.{
  ℕ, zero, suc, ◌≡◌, sym, ap, ◌∙◌, ap₂, Bool-cases, subst, ◌≢◌, List, [], ◌∷◌, some, arith, All,
  Bytes, same, same_iff, lookup, put, lookup-put_self, HasKeysOnce, put-HasKeysOnce, All-put,
  All-drop_key, drop_key-HasKeysOnce, Option-cases, inl, inr,
}
use restest.Collections.{
  Fields, Json, text, number, nested, boolean, null_value, Strategy, serial, uuid, SeedDoc,
  scalar_text, id_json,
}
use restest.Collections.Own.{HasOwnId, scalar_text-id_json, format_int-ne-nil}
use restest.Documents.{
  Collection, Body, json_object, no_object, Result, with_own_id, public_id_for, create_attempts,
  try_create, create_document, write_object, write_document, merge, replace_document,
  patch_document, delete_document, Request, create, replace, patch, delete, serve, serve_all,
}
use restest.Documents.Steps.{
  allocate_document_id-cases, try_create-overflow, try_create-taken, try_create-free,
  write_document-cases, write_object-missing, write_object-found, delete_document-missing,
  delete_document-found,
}

abbrev pub OwnId : Bytes → Bytes × Fields → Type 0
OwnId id_field (id, body) = HasOwnId id_field (record { public_id = id; body = body })

pub record IsWellFormed (c : Collection) : Type 0 where
  pub once : HasKeysOnce c.documents
  pub own : All (OwnId c.id_field) c.documents

-- The uuids that a request draws are not empty.
abbrev pub Drawn : Request → Type 0
Drawn (create uuids body) = (i : ℕ) → uuids i ≢ []
Drawn _ = Unit

keep : {p q : Result × Collection} → p ≡ q → IsWellFormed q.1 → IsWellFormed p.1
keep e = subst (λ p. IsWellFormed p.1) (sym e)

with_own_id-OwnId :
    (id_field id : Bytes) (body : Fields)
    → id ≢ []
    → OwnId id_field (id, with_own_id id_field id body)
unfolding with_own_id
with_own_id-OwnId id_field id body h = record {
  raw = id_json id;
  field = lookup-put_self id_field (id_json id) body;
  scalar = scalar_text-id_json id h;
}

lookup-All :
    (P : Bytes × Fields → Type 0) (k : Bytes) (v : Fields) (m : List (Bytes × Fields))
    → All P m
    → lookup k m ≡ some v
    → P (k, v)
unfolding lookup
lookup-All P k v [] h e = cc
lookup-All P k v ((j, w) ∷ m) (p, h) e = elim (Bool-cases (same j k)) [
  | inl s ↦ subst P (ap₂ (λ a b. (a, b)) ((same_iff j k).0 s) (ground arith)) p
  | inr s ↦ lookup-All P k v m h (ground arith)
]

scalar_text-ne-nil : (raw : Json) → scalar_text raw ≢ some []
unfolding scalar_text
scalar_text-ne-nil (text []) h = cc
scalar_text-ne-nil (text (c ∷ s)) h = cc
scalar_text-ne-nil (number c s) h = cc
scalar_text-ne-nil (nested s) h = cc
scalar_text-ne-nil (boolean b) h = cc
scalar_text-ne-nil null_value h = cc

public_id-ne-nil : (d : SeedDoc) (f : Bytes) → HasOwnId f d → d.public_id ≢ []
public_id-ne-nil d f h e = scalar_text-ne-nil h.raw (h.scalar ∙ ap some e)

put-IsWellFormed :
    (c : Collection) (id : Bytes) (body : Fields)
    → id ≢ []
    → IsWellFormed c
    → IsWellFormed (record c { documents = put id (with_own_id c.id_field id body) c.documents })
put-IsWellFormed c id body h w = record {
  once = put-HasKeysOnce id (with_own_id c.id_field id body) c.documents w.once;
  own = All-put (OwnId c.id_field) id _ c.documents (with_own_id-OwnId c.id_field id body h) w.own;
}

public_id_for-ne-nil :
    (st : Strategy) (fresh : Bytes) (n : ℕ) → fresh ≢ [] → public_id_for st fresh n ≢ []
public_id_for-ne-nil serial fresh n h = format_int-ne-nil n
public_id_for-ne-nil uuid fresh n h = h

try_create-IsWellFormed :
    (left : ℕ) (uuids : ℕ → Bytes) (body : Fields) (c : Collection)
    → ((i : ℕ) → uuids i ≢ [])
    → IsWellFormed c
    → IsWellFormed (try_create left uuids body c).1
unfolding try_create
try_create-IsWellFormed zero uuids body c d w = w
try_create-IsWellFormed (suc left) uuids body c d w = elim (allocate_document_id-cases c) [
  | inl e ↦ keep (try_create-overflow left uuids body c e) w
  | inr (n, m, e) ↦
      let id = public_id_for c.id_strategy (uuids left) n in
      let c' : Collection = record c { next_serial = m } in
      let w' : IsWellFormed c' = record { once = w.once; own = w.own } in
      elim (Option-cases (lookup id c.documents)) [
        | inr (taken, k) ↦
            keep (try_create-taken left uuids body c n c' e taken k)
              (try_create-IsWellFormed left uuids body c' d w')
        | inl k ↦ keep (try_create-free left uuids body c n c' e k) (
            put-IsWellFormed c' id body (public_id_for-ne-nil c.id_strategy (uuids left) n (d left))
              w')
      ]
]

write_object-IsWellFormed :
    (statement : Fields → Fields → Fields) (id : Bytes) (body : Fields) (c : Collection)
    → IsWellFormed c
    → IsWellFormed (write_object statement id body c).1
write_object-IsWellFormed statement id body c w = elim (Option-cases (lookup id c.documents)) [
  | inl e ↦ keep (write_object-missing statement id body c e) w
  | inr (old, e) ↦
      let own = lookup-All (OwnId c.id_field) id old c.documents w.own e in
      keep (write_object-found statement id body c old e)
        (put-IsWellFormed c id (statement old body) (public_id-ne-nil _ c.id_field own) w)
]

write_document-IsWellFormed :
    (statement : Fields → Fields → Fields) (id : Bytes) (body : Body) (c : Collection)
    → IsWellFormed c
    → IsWellFormed (write_document statement id body c).1
unfolding write_document
write_document-IsWellFormed statement id no_object c w = w
write_document-IsWellFormed statement id (json_object body) c w =
    elim (write_document-cases statement id body c) [
      | inl e ↦ keep e (write_object-IsWellFormed statement id body c w)
      | inr e ↦ keep e w
    ]

delete_document-IsWellFormed :
    (id : Bytes) (c : Collection) → IsWellFormed c → IsWellFormed (delete_document id c).1
unfolding delete_document
delete_document-IsWellFormed id c w = elim (Option-cases (lookup id c.documents)) [
  | inl e ↦ keep (delete_document-missing id c e) w
  | inr (old, e) ↦ keep (delete_document-found id c old e) (record {
    once = drop_key-HasKeysOnce id c.documents w.once;
    own = All-drop_key (OwnId c.id_field) id c.documents w.own;
  })
]

serve-IsWellFormed :
    (r : Request) (c : Collection) → Drawn r → IsWellFormed c → IsWellFormed (serve r c).1
unfolding serve create_document replace_document patch_document
serve-IsWellFormed (create uuids no_object) c d w = w
serve-IsWellFormed (create uuids (json_object body)) c d w =
    try_create-IsWellFormed create_attempts uuids body c d w
serve-IsWellFormed (replace id body) c d w =
    write_document-IsWellFormed (λ old new. new) id body c w
serve-IsWellFormed (patch id body) c d w = write_document-IsWellFormed merge id body c w
serve-IsWellFormed (delete id) c d w = delete_document-IsWellFormed id c w

-- Through any requests, with any bodies, a collection keeps one document for each identifier, and each
-- of them carries its identifier in the field for it, whatever the bodies say there.
pub serve_all-IsWellFormed :
    (rs : List Request) (c : Collection)
    → All Drawn rs
    → IsWellFormed c
    → IsWellFormed (serve_all rs c)
unfolding serve_all
serve_all-IsWellFormed [] c d w = w
serve_all-IsWellFormed (r ∷ rs) c (d, ds) w =
    serve_all-IsWellFormed rs (serve r c).1 ds (serve-IsWellFormed r c d w)
