-- ===== src/Storage/Database/After.antt =====
-- What holds of the database after an action that succeeds, given what held before it.
use dav_deck.Common.{◌≡◌, refl, subst, sym, Bool, true, false, Result, ok, err}
use dav_deck.Common.Exec.{Exec, pure, lift, gets, fail_if, continue, modify, ◌>>=◌}
use dav_deck.Common.Exec.Ensures.{same_value}
use dav_deck.Common.Exec.Keeps.{Keeps}
use dav_deck.Storage.Database.{
  Database, Store, StoreError, statement, write, rolled_back, transaction,
}
use dav_deck.Storage.Database.Atomic.{database, Keeps-statement}

-- Where `P` holds of the database and `m` returns `a`, then `Q a` holds of the database after it.
pub record After {A : Type 0} (P : Database → Type 0) (m : Exec Store StoreError A)
    (Q : A → Database → Type 0) : Type 0 where
  pub at_ok : (s : Store) → P s.db → (a : A) → (m s).0 ≡ ok a → Q a (m s).1.db

continued :
    {A C : Type 0} {Q : A → Database → Type 0} {W : C → Database → Type 0} (r : Result StoreError A)
    (s : Store) (g : A → Exec Store StoreError C)
    → ((a : A) → r ≡ ok a → Q a s.db)
    → ((a : A) → After (Q a) (g a) W)
    → (c : C) → (continue r g s).0 ≡ ok c
    → W c (continue r g s).1.db
continued (ok a) s g q k c h = (k a).at_ok s (q a refl) c h
continued (err e) s g q k c h = absurd (cc)

module _ {A : Type 0} {P : Database → Type 0} where
  pub After-pure : (a : A) → After P (pure a) (λ b db. P db × (a ≡ b))
  unfolding pure
  After-pure a = record { at_ok = λ s p b h. (p, same_value a b _ refl h) }

  pub After-lift : (r : Result StoreError A) → After P (lift r) (λ a db. P db × (r ≡ ok a))
  unfolding lift
  After-lift r = record { at_ok = λ s p a h. (p, h) }

  pub After-gets : (f : Database → A) → After P (gets (λ s. f s.db)) (λ a db. P db × (f db ≡ a))
  unfolding gets
  After-gets f = record { at_ok = λ s p a h. (p, same_value (f s.db) a _ refl h) }

  pub After-bind :
      {C : Type 0} (m : Exec Store StoreError A) (g : A → Exec Store StoreError C)
      (Q : A → Database → Type 0) (W : C → Database → Type 0)
      → After P m Q
      → ((a : A) → After (Q a) (g a) W)
      → After P (m >>= g) W
  unfolding ◌>>=◌
  After-bind m g Q W km kg = record {
    at_ok = λ s p c h. continued (m s).0 (m s).1 g (km.at_ok s p) kg c h;
  }

  pub After-imp :
      (m : Exec Store StoreError A) (Q W : A → Database → Type 0)
      → After P m Q
      → ((a : A) (db : Database) → Q a db → W a db)
      → After P m W
  After-imp m Q W k h = record { at_ok = λ s p a same. h a _ (k.at_ok s p a same) }

module _ {P : Database → Type 0} where
  pub After-fail_if :
      (b : Bool) (e : StoreError) → After P (fail_if b e) (λ _ db. P db × (b ≡ false))
  unfolding fail_if
  After-fail_if true e = record { at_ok = λ s p a h. absurd (cc) }
  After-fail_if false e = record { at_ok = λ s p a h. (p, refl) }

  pub After-statement : After P statement (λ _. P)
  After-statement = record { at_ok = λ s p a h. subst P (sym (Keeps-statement.at s)) p }

  After-modify :
      (f : Database → Database)
      → After P
          (modify (λ s. record s { db = f s.db }))
          (λ _ db. (old : Database) × P old × (db ≡ f old))
  unfolding modify
  After-modify f = record { at_ok = λ s p a h. (s.db, p, refl) }

  pub After-write :
      (f : Database → Database)
      → After P (write f) (λ _ db. (old : Database) × P old × (db ≡ f old))
  unfolding write
  After-write f = After-bind _ _ _ _ After-statement λ _. After-modify f

  -- An action that changes nothing.
  pub After-keeps :
      {A : Type 0} (m : Exec Store StoreError A) → Keeps database m → After P m (λ _. P)
  After-keeps m k = record { at_ok = λ s p a h. subst P (sym (k.at s)) p }

module _ {A : Type 0} (P : Database → Type 0) (Q : A → Database → Type 0) where
  framed :
      (body : Exec Store StoreError A)
      → After P body Q
      → After P (statement >>= λ _. body >>= λ a. statement >>= λ _. pure a) Q
  framed body k = After-bind _ _ _ _ After-statement λ _. After-bind _ _ _ _ k λ a.
      After-bind _ _ _ _ After-statement
        λ _. After-imp _ _ _ (After-pure a) λ b db q. subst (λ x. Q x db) (q.1) (q.0)

  committed :
      (before : Database) (p : Result StoreError A × Store) (a : A)
      → ((b : A) → p.0 ≡ ok b → Q b p.1.db)
      → (rolled_back before p).0 ≡ ok a
      → Q a (rolled_back before p).1.db
  unfolding rolled_back
  committed before (ok b, s) a k h = k a h
  committed before (err e, s) a k h = absurd (cc)

  pub After-transaction :
      (body : Exec Store StoreError A) → After P body Q → After P (transaction body) Q
  unfolding transaction
  After-transaction body k = record {
    at_ok = λ s p a h. committed s.db _ a ((framed body k).at_ok s p) h;
  }
