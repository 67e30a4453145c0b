-- ===== src/Store/Preserves.antt =====
-- Statements that leave a part of the tables as it is.
use simple_host_man.Prelude.{◌≡◌, sym, ap, ◌∙◌, Bool, true, false, if◌then◌else◌}
use simple_host_man.Store.{
  Store, Tx, StoreError, ◌>>=◌, >>=-eq-ok, pure, throw, query, execute, ok, ok-store,
}

module _ {V : Type 0} (view : Store → V) where
  abbrev pub Preserves : {A : Type 0} → Tx A → Type 0
  Preserves {A} m = (db db' : Store) (a : A) → m db ≡ ok (a, db') → view db' ≡ view db

  pub Preserves-bind :
      {A B : Type 0} (m : Tx A) (f : A → Tx B)
      → Preserves m
      → ((a : A) → Preserves (f a))
      → Preserves (m >>= f)
  Preserves-bind m f h k db db' b e =
      let (a, d, e1, e2) = >>=-eq-ok m f db e in k a d db' b e2 ∙ h db d a e1

  pub Preserves-pure : {A : Type 0} (a : A) → Preserves (pure a)
  Preserves-pure a db db' b e = ap view (sym (ok-store e))

  pub Preserves-throw : {A : Type 0} (x : StoreError) → Preserves {A = A} (throw x)
  Preserves-throw x db db' a e = cc

  pub Preserves-query : {A : Type 0} (f : Store → A) → Preserves (query f)
  Preserves-query f db db' a e = ap view (sym (ok-store e))

  pub Preserves-execute :
      (f : Store → Store) → ((db : Store) → view (f db) ≡ view db) → Preserves (execute f)
  Preserves-execute f h db db' a e = ap view (sym (ok-store e)) ∙ h db

  pub Preserves-if :
      {A : Type 0} (b : Bool) (m n : Tx A)
      → Preserves m
      → Preserves n
      → Preserves (if b then m else n)
  Preserves-if true m n h k = h
  Preserves-if false m n h k = k
