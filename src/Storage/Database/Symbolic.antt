-- ===== src/Storage/Database/Symbolic.antt =====
-- Symbolic execution of a repository call from a known database: a rule for each kind of step.
use dav_deck.Common.{◌≡◌, sym, subst, ap, ◌∙◌, Bool, false, Result, ok}
use dav_deck.Common.Exec.{Exec, pure, lift, gets, fail_if, modify, ◌>>=◌}
use dav_deck.Storage.Database.{Database, Store, StoreError, statement, write}
use dav_deck.Storage.Database.After.{
  After, After-pure, After-lift, After-gets, After-bind, After-imp, After-fail_if, After-statement,
  After-write,
}

-- From the database `d`, where `m` returns `a`, then `Q a` holds of the database after it.
abbrev pub From :
    {A : Type 0} → Database → Exec Store StoreError A → (A → Database → Type 0) → Type 0
From d m Q = After (λ db. db ≡ d) m Q

module _ {C : Type 0} (d : Database) (Q : C → Database → Type 0) where
  pub From-pure : (c : C) → Q c d → From d (pure c) Q
  From-pure c q =
      After-imp _ _ _ (After-pure c) λ b db p. subst (λ x. Q x db) p.1 (subst (Q c) (sym p.0) q)

  pub From-statement :
      (g : Unit {0} → Exec Store StoreError C)
      → ((u : Unit {0}) → From d (g u) Q)
      → From d (statement >>= g) Q
  From-statement g k = After-bind _ _ _ _ After-statement k

  pub From-write :
      (f : Database → Database) (g : Unit {0} → Exec Store StoreError C)
      → ((u : Unit {0}) → From (f d) (g u) Q)
      → From d (write f >>= g) Q
  From-write f g k =
      After-bind _ _ (λ _ db. db ≡ f d) _ (After-imp _ _ _ (After-write f) λ _ db p. p.2 ∙ ap f p.1)
        k

  pub From-gets :
      {A : Type 0} (f : Database → A) (g : A → Exec Store StoreError C)
      → From d (g (f d)) Q
      → From d (gets (λ s. f s.db) >>= g) Q
  From-gets f g k = After-bind _ _ _ _ (After-gets f) λ a. record {
    at_ok = λ s p c h.
        subst (λ x. (c : C) → (g x s).0 ≡ ok c → Q c (g x s).1.db) (ap f (sym p.0) ∙ p.1)
          (k.at_ok s p.0) c h;
  }

  pub From-lift :
      {A : Type 0} (r : Result StoreError A) (g : A → Exec Store StoreError C)
      → ((a : A) → r ≡ ok a → From d (g a) Q)
      → From d (lift r >>= g) Q
  From-lift r g k =
      After-bind _ _ _ _ (After-lift r) λ a. record { at_ok = λ s p c h. (k a p.1).at_ok s p.0 c h }

  pub From-fail_if :
      (b : Bool) (e : StoreError) (g : Unit {0} → Exec Store StoreError C)
      → (b ≡ false → (u : Unit {0}) → From d (g u) Q)
      → From d (fail_if b e >>= g) Q
  From-fail_if b e g k =
      After-bind _ _ _ _ (After-fail_if b e)
        λ u. record { at_ok = λ s p c h. (k p.1 u).at_ok s p.0 c h }

module _ (d : Database) (Q : Unit {0} → Database → Type 0) where
  pub From-end_fail_if :
      (b : Bool) (e : StoreError) → (b ≡ false → (u : Unit {0}) → Q u d) → From d (fail_if b e) Q
  From-end_fail_if b e q =
      After-imp _ _ _ (After-fail_if b e) λ u db p. subst (Q u) (sym p.0) (q p.1 u)

  pub From-end_write : (f : Database → Database) → ((u : Unit {0}) → Q u (f d)) → From d (write f) Q
  From-end_write f q =
      After-imp _ _ _ (After-write f) λ u db p. subst (Q u) (sym (p.2 ∙ ap f p.1)) (q u)

module _ {C : Type 0} (d : Database) (Q : C → Database → Type 0) where
  pub From-modify :
      (f : Database → Database) (g : Unit {0} → Exec Store StoreError C)
      → ((u : Unit {0}) → From (f d) (g u) Q)
      → From d (modify (λ s. record s { db = f s.db }) >>= g) Q
  unfolding modify
  From-modify f g k = After-bind _ _ (λ _ db. db ≡ f d) _ (record { at_ok = λ s p c h. ap f p }) k

pub From-end_modify :
    (d : Database) (Q : Unit {0} → Database → Type 0) (f : Database → Database)
    → ((u : Unit {0}) → Q u (f d))
    → From d (modify (λ s. record s { db = f s.db })) Q
unfolding modify
From-end_modify d Q f q = record { at_ok = λ s p c h. subst (λ x. Q c (f x)) (sym p) (q c) }
