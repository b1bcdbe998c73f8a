-- ===== src/Yamal/Race/Serial.antt =====
-- The log as the commits of some processes, one after the other.
use yamal.Base.{
  Apart, Apart-append, Distinct, List, [], ap, append-nil, append_assoc, refl, subst, sym, ℕ, ◌++◌,
  ◌∙◌, ◌∷◌, ◌≡◌, ◌≢◌,
}
use yamal.Yamal.Race.Inv.{Log, LogStep, append, close, stay}

-- The nodes that the processes `ks` commit, one process after the other.
abbrev pub flat : (ℕ → List ℕ) → List ℕ → List ℕ
flat mine [] = []
flat mine (k ∷ ks) = mine k ++ flat mine ks

flat-snoc :
    (mine : ℕ → List ℕ) (ks : List ℕ) (i : ℕ) → flat mine (ks ++ i ∷ []) ≡ flat mine ks ++ mine i
flat-snoc mine [] i = append-nil (mine i)
flat-snoc mine (k ∷ ks) i =
    ap (λ zs. mine k ++ zs) (flat-snoc mine ks i)
    ∙ sym (append_assoc (mine k) (flat mine ks) (mine i))

-- One log comes from the other by the commits of the processes `ks`, each of which commits once; a
-- closed log stays as it is.
pub record IsSerial (h : ℕ) (mine : ℕ → List ℕ) (log log' : Log) : Type 0 where
  pub ks : List ℕ
  pub once : Distinct ks
  pub grown : log'.os ≡ log.os ++ flat mine ks
  pub sealed : log.fin ≡ h → (log'.os ≡ log.os) × (log'.fin ≡ h)

-- A process whose first node is new has not committed.
Apart-flat :
    (mine : ℕ → List ℕ) (i mem : ℕ) (ns os ks : List ℕ)
    → mine i ≡ mem ∷ ns
    → Apart mem (os ++ flat mine ks)
    → Apart i ks
Apart-flat mine i mem ns os [] e a = tt
Apart-flat mine i mem ns (o ∷ os) (k ∷ ks) e a = Apart-flat mine i mem ns os (k ∷ ks) e a.1
Apart-flat mine i mem ns [] (k ∷ ks) e a = (
  λ q. (subst (λ zs. Apart mem (zs ++ flat mine ks)) (ap mine (sym q) ∙ e) a).0 refl,
  Apart-flat mine i mem ns (mine k) ks e a,
)

Distinct-snoc : (ks : List ℕ) (i : ℕ) → Distinct ks → Apart i ks → Distinct (ks ++ i ∷ [])
Distinct-snoc [] i d a = (tt, tt)
Distinct-snoc (k ∷ ks) i d a =
    (Apart-append k ks (i ∷ []) d.0 (λ q. a.0 (sym q), tt), Distinct-snoc ks i d.1 a.1)

-- One more turn after the commits of `ks`.
pub IsSerial-step :
    (h : ℕ) (mine : ℕ → List ℕ) (log log' log'' : Log) (i : ℕ)
    → h ≢ 0
    → IsSerial h mine log log'
    → LogStep h (mine i) log' log''
    → IsSerial h mine log log''
IsSerial-step h mine log log' log'' i z r stay = r
IsSerial-step h mine log log' log'' i z r (append f mem ns e a) = record {
  ks = r.ks ++ i ∷ [];
  once =
      Distinct-snoc r.ks i r.once
        (Apart-flat mine i mem ns log.os r.ks e (subst (Apart mem) r.grown a));
  grown =
      ap (λ zs. zs ++ mine i) r.grown
      ∙ append_assoc log.os (flat mine r.ks) (mine i)
      ∙ ap (λ zs. log.os ++ zs) (sym (flat-snoc mine r.ks i));
  sealed = λ c. absurd (z (sym (r.sealed c).1 ∙ f));
}
IsSerial-step h mine log log' log'' i z r (close f) = record {
  ks = r.ks;
  once = r.once;
  grown = r.grown;
  sealed = λ c. ((r.sealed c).0, refl);
}
