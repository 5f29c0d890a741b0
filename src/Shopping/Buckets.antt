-- ===== src/Shopping/Buckets.antt =====
-- The pattern that web/src/lib/api/shopping.ts and web/src/components/shopping/CategoryGroup.tsx share:
-- a `Map` from a name to its items, whose entry is made when its name first comes. A `Map` and the
-- order in which its keys came are one list here.
use mathlib.Core.List.Perm
use mathlib.Core.List.{Perm, perm_middle, append-nil, append_assoc}
use tidyboard.Prelude.{
  ◌≡◌, refl, sym, Bool, true, false, List, [], ◌∷◌, ◌++◌, String, str_eq, eq_iff, if◌then◌else◌,
  Bool-cases, inl, inr, All, arith,
}

-- The tag is what the entry keeps from the item that made it.
pub record Bucket (T A : Type 0) : Type 0 where
  pub key : String
  pub tag : T
  pub items : List A

str_eq-swap : (j k : String) → str_eq j k ≡ false → str_eq k j ≡ false
str_eq-swap j k h = elim (Bool-cases (str_eq k j)) [
  | inl e ↦ let q = (eq_iff j k).1 (sym ((eq_iff k j).0 e)) in ground arith
  | inr e ↦ e
]

same_key : (a k j : String) → a ≡ k → (v : Bool) → str_eq k j ≡ v → str_eq a j ≡ v
same_key a k j e v h = rw e h

other_key : (a k j : String) → str_eq a j ≡ true → str_eq a k ≡ false → str_eq k j ≡ false
other_key a k j h q = str_eq-swap j k (rw ((eq_iff a j).0 h) at q)

module _ {T A : Type 0} where
  -- Makes the entry where it is missing, then adds the item to it.
  abbrev pub push : String → T → A → List (Bucket T A) → List (Bucket T A)
  push k t x [] = record { key = k; tag = t; items = x ∷ [] } ∷ []
  push k t x (b ∷ bs) =
      if str_eq b.key k
      then record { key = b.key; tag = b.tag; items = b.items ++ x ∷ [] } ∷ bs
      else b ∷ push k t x bs

  abbrev pub gather : List (String × T × A) → List (Bucket T A) → List (Bucket T A)
  gather [] bs = bs
  gather ((k, t, x) ∷ rest) bs = gather rest (push k t x bs)

  -- `map.get(k)?.items ?? []`
  abbrev pub items_at : String → List (Bucket T A) → List A
  items_at k [] = []
  items_at k (b ∷ bs) = if str_eq b.key k then b.items else items_at k bs

  abbrev pub values_at : String → List (String × T × A) → List A
  values_at k [] = []
  values_at k ((j, _, x) ∷ rest) = if str_eq j k then x ∷ values_at k rest else values_at k rest

  abbrev pub everything : List (Bucket T A) → List A
  everything [] = []
  everything (b ∷ bs) = b.items ++ everything bs

  abbrev pub values : List (String × T × A) → List A
  values [] = []
  values ((_, _, x) ∷ rest) = x ∷ values rest

  abbrev pub Absent : String → List (Bucket T A) → Type 0
  Absent k bs = All (λ b. str_eq b.key k ≡ false) bs

  abbrev pub DistinctKeys : List (Bucket T A) → Type 0
  DistinctKeys [] = Unit
  DistinctKeys (b ∷ bs) = Absent b.key bs × DistinctKeys bs

  push-Absent :
      (j k : String) (t : T) (x : A) (bs : List (Bucket T A))
      → str_eq k j ≡ false
      → Absent j bs
      → Absent j (push k t x bs)
  push-Absent j k t x [] h a = (h, tt)
  push-Absent j k t x (b ∷ bs) h (e, a) = elim (Bool-cases (str_eq b.key k)) [
    | inl q ↦ rw q (e, a)
    | inr q ↦ rw q (e, push-Absent j k t x bs h a)
  ]

  push-DistinctKeys :
      (k : String) (t : T) (x : A) (bs : List (Bucket T A))
      → DistinctKeys bs
      → DistinctKeys (push k t x bs)
  push-DistinctKeys k t x [] h = (tt, tt)
  push-DistinctKeys k t x (b ∷ bs) (a, h) = elim (Bool-cases (str_eq b.key k)) [
    | inl q ↦ rw q (a, h)
    | inr q ↦
        rw q (push-Absent b.key k t x bs (str_eq-swap b.key k q) a, push-DistinctKeys k t x bs h)
  ]

  items_at-push :
      (j k : String) (t : T) (x : A) (bs : List (Bucket T A))
      → items_at j (push k t x bs) ≡ (if str_eq k j then items_at j bs ++ x ∷ [] else items_at j bs)
  items_at-push j k t x [] = refl
  items_at-push j k t x (b ∷ bs) = elim (Bool-cases (str_eq b.key k)) [
    | inl q ↦ elim (Bool-cases (str_eq k j)) [
      | inl r ↦ rw (q, r, same_key b.key k j ((eq_iff b.key k).0 q) true r) refl
      | inr r ↦ rw (q, r, same_key b.key k j ((eq_iff b.key k).0 q) false r) refl
    ]
    | inr q ↦ elim (Bool-cases (str_eq b.key j)) [
      | inl s ↦ rw (q, s, other_key b.key k j s q) refl
      | inr s ↦ rw (q, s) (items_at-push j k t x bs)
    ]
  ]

  -- A bucket holds the items that came under its key, in their order.
  pub items_at-gather :
      (j : String) (kvs : List (String × T × A)) (bs : List (Bucket T A))
      → items_at j (gather kvs bs) ≡ items_at j bs ++ values_at j kvs
  items_at-gather j [] bs = sym (append-nil (items_at j bs))
  items_at-gather j ((k, t, x) ∷ rest) bs =
      let ih = items_at-gather j rest (push k t x bs) in
      let here = items_at-push j k t x bs in
      elim (Bool-cases (str_eq k j)) [
        | inl e ↦ rw (ih, here, e) (append_assoc (items_at j bs) (x ∷ []) (values_at j rest))
        | inr e ↦ rw (ih, here, e) refl
      ]

  everything-push :
      (k : String) (t : T) (x : A) (bs : List (Bucket T A))
      → Perm (everything (push k t x bs)) (x ∷ everything bs)
  everything-push k t x [] = Perm.rfl
  everything-push k t x (b ∷ bs) = elim (Bool-cases (str_eq b.key k)) [
    | inl q ↦
        rw (q, append_assoc b.items (x ∷ []) (everything bs)) (perm_middle b.items (everything bs))
    | inr q ↦ rw q (
        Perm.trans (Perm.append_left b.items (everything-push k t x bs))
          (perm_middle b.items (everything bs)))
  ]

  -- No item is lost and none is doubled.
  pub everything-gather :
      (kvs : List (String × T × A)) (bs : List (Bucket T A))
      → Perm (everything (gather kvs bs)) (values kvs ++ everything bs)
  everything-gather [] bs = Perm.rfl
  everything-gather ((k, t, x) ∷ rest) bs = Perm.trans (everything-gather rest (push k t x bs)) (
      Perm.trans (Perm.append_left (values rest) (everything-push k t x bs))
        (perm_middle (values rest) (everything bs)))

  pub gather-DistinctKeys :
      (kvs : List (String × T × A)) (bs : List (Bucket T A))
      → DistinctKeys bs
      → DistinctKeys (gather kvs bs)
  gather-DistinctKeys [] bs h = h
  gather-DistinctKeys ((k, t, x) ∷ rest) bs h =
      gather-DistinctKeys rest (push k t x bs) (push-DistinctKeys k t x bs h)
