-- ===== src/Payload/Stringify/Order.antt =====
-- The text of a value forgets the order of properties, and so does the hash of a payload.
use mathlib.Core.Quot
use mathlib.Core.Quot.{Quot}
use simple_host_man.Prelude.{insert}
use simple_host_man.Prelude.{sort}
use simple_host_man.Prelude.Text.{same}
use simple_host_man.Payload.Stringify.{
  entry, join, cons, arr, Items, obj, stringify_fields, field, stringify_items, Json,
  stable_stringify, Fields, hash_desired_payload, by_key, Text, text_leb,
}
use simple_host_man.Prelude.{
  refl, sym, ap, ◌≡◌, inl, inr, true, false, String, List, [], ◌∷◌, ◌++◌, map, arith, Bool-cases,
}

text_leb_total : (s t : Text) → text_leb s t ≡ false → text_leb t s ≡ true
unfolding text_leb
text_leb_total [] t h = cc
text_leb_total (c ∷ s) [] h = refl
text_leb_total (c ∷ s) (d ∷ t) h = ground (arith, text_leb_total s t)

text_leb_trans : (s t u : Text) → text_leb s t ≡ true → text_leb t u ≡ true → text_leb s u ≡ true
unfolding text_leb
text_leb_trans [] t u h k = refl
text_leb_trans (c ∷ s) [] u h k = cc
text_leb_trans (c ∷ s) (d ∷ t) [] h k = cc
text_leb_trans (c ∷ s) (d ∷ t) (e ∷ u) h k = ground (arith, text_leb_trans s t u)

text_leb_antisym : (s t : Text) → text_leb s t ≡ true → text_leb t s ≡ true → same s t ≡ true
unfolding text_leb
text_leb_antisym [] [] h k = refl
text_leb_antisym [] (d ∷ t) h k = cc
text_leb_antisym (c ∷ s) [] h k = cc
text_leb_antisym (c ∷ s) (d ∷ t) h k = ground (arith, text_leb_antisym s t)

-- Two entries with different keys may be inserted in either order.
insert_ordered :
    (x y : Text × Text) (zs : List (Text × Text))
    → by_key x y ≡ true
    → by_key y x ≡ false
    → insert by_key x (insert by_key y zs) ≡ insert by_key y (insert by_key x zs)
unfolding insert
insert_ordered x y [] h k = rw (h, k) refl
insert_ordered x y (z ∷ zs) h k = elim (Bool-cases (by_key y z)) [
  | inl e ↦
      let first : by_key x z ≡ true = text_leb_trans x.0 y.0 z.0 h e in rw (e, first, h, k, e) refl
  | inr e ↦ elim (Bool-cases (by_key x z)) [
    | inl f ↦ rw (e, f, k, e) refl
    | inr f ↦ rw (e, f, e) (ap (λ rest. z ∷ rest) (insert_ordered x y zs h k))
  ]
]

insert_comm :
    (x y : Text × Text) (zs : List (Text × Text))
    → same x.0 y.0 ≡ false
    → insert by_key x (insert by_key y zs) ≡ insert by_key y (insert by_key x zs)
insert_comm x y zs other = elim (Bool-cases (by_key x y)) [
  | inl h ↦ elim (Bool-cases (by_key y x)) [
    | inl k ↦ cc (text_leb_antisym x.0 y.0 h k, other)
    | inr k ↦ insert_ordered x y zs h k
  ]
  | inr h ↦ sym (insert_ordered y x zs (text_leb_total x.0 y.0 h) h)
]

-- One exchange of neighbouring properties with different keys, at any depth.
mutual
  pub data IsExchange : Fields → Fields → Type 0 where
    swap :
        (k l : Text) (v w : Json) (fs : Fields)
        → same k l ≡ false
        → IsExchange (field k v (field l w fs)) (field l w (field k v fs))
    later :
        (k : Text) (v : Json) (fs gs : Fields)
        → IsExchange fs gs
        → IsExchange (field k v fs) (field k v gs)
    inside :
        (k : Text) (v w : Json) (fs : Fields)
        → IsValueExchange v w
        → IsExchange (field k v fs) (field k w fs)

  pub data IsValueExchange : Json → Json → Type 0 where
    object : (fs gs : Fields) → IsExchange fs gs → IsValueExchange (obj fs) (obj gs)
    array : (xs ys : Items) → IsItemsExchange xs ys → IsValueExchange (arr xs) (arr ys)

  pub data IsItemsExchange : Items → Items → Type 0 where
    here : (v w : Json) (xs : Items) → IsValueExchange v w → IsItemsExchange (cons v xs) (cons w xs)
    there :
        (v : Json) (xs ys : Items) → IsItemsExchange xs ys → IsItemsExchange (cons v xs) (cons v ys)

-- Payloads up to the order of properties.
abbrev pub UnorderedPayload : Type 0
UnorderedPayload = Quot IsExchange

mutual
  unfolding stable_stringify stringify_items stringify_fields sort

  exchange-sorted :
      (fs gs : Fields)
      → IsExchange fs gs
      → sort by_key (stringify_fields fs) ≡ sort by_key (stringify_fields gs)
  exchange-sorted _ _ (IsExchange.swap k l v w fs other) =
      insert_comm (k, stable_stringify v) (l, stable_stringify w)
        (sort by_key (stringify_fields fs)) other
  exchange-sorted _ _ (IsExchange.later k v fs gs e) =
      ap (insert by_key (k, stable_stringify v)) (exchange-sorted fs gs e)
  exchange-sorted _ _ (IsExchange.inside k v w fs e) =
      ap (λ t. insert by_key (k, t) (sort by_key (stringify_fields fs))) (exchange-value v w e)

  exchange-value : (v w : Json) → IsValueExchange v w → stable_stringify v ≡ stable_stringify w
  exchange-value _ _ (IsValueExchange.object fs gs e) =
      ap (λ es. b'{' ∷ join b',' (map entry es) ++ b'}' ∷ []) (exchange-sorted fs gs e)
  exchange-value _ _ (IsValueExchange.array xs ys e) =
      ap (λ ts. b'[' ∷ join b',' ts ++ b']' ∷ []) (exchange-items xs ys e)

  exchange-items : (xs ys : Items) → IsItemsExchange xs ys → stringify_items xs ≡ stringify_items ys
  exchange-items _ _ (IsItemsExchange.here v w xs e) =
      ap (λ t. t ∷ stringify_items xs) (exchange-value v w e)
  exchange-items _ _ (IsItemsExchange.there v xs ys e) =
      ap (λ ts. stable_stringify v ∷ ts) (exchange-items xs ys e)

-- The text of a payload up to the order of properties.
text_unordered : UnorderedPayload → Text
text_unordered =
    Quot.lift (hlevel) (λ fs. stable_stringify (obj fs))
      (λ fs gs e. exchange-value (obj fs) (obj gs) (IsValueExchange.object fs gs e))

-- Payloads that are equal up to the order of properties, at any depth, have one hash.
pub hash-unordered :
    (digest : Text → String) (fs gs : Fields)
    → ◌≡◌ {A = UnorderedPayload} (Quot.mk fs) (Quot.mk gs)
    → hash_desired_payload digest fs ≡ hash_desired_payload digest gs
unfolding hash_desired_payload text_unordered
hash-unordered digest fs gs e = ap (λ p. digest (text_unordered p)) e
