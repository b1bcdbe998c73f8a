-- ===== src/Timeline/Given.antt =====
-- What channel_announcement gives to a channel: the callbacks of every prefix that is looked up.
use yamal.Base.{
  Bool, Bool-cases, List, Option-cases, [], ap, arith, false, inl, inr, refl, sym, ◌&&◌, ◌||◌, ◌∙◌,
  ◌∷◌, ◌≡◌,
}
use yamal.Control.Order.{member}
use yamal.Control.Registry.{Name, name_test}
use yamal.Control.Table.{find}
use yamal.LazyRemVector.{Item, emplace_back, new, push_unique}
use yamal.LazyRemVector.Live.{is_live, is_live-push_unique, occurs, occurs-append}
use yamal.Streams.State.{bytes_equal}
use yamal.Streams.State.Laws.{bytes_equal-≡, bytes_equal_iff}
use yamal.Timeline.Register.{
  Client, Clients, at_key, client_beq, client_test, push_all, push_key, push_keys,
}
use yamal.Timeline.Tables.{vector_at, vector_at-at_key, vector_at-at_key_other}

unfoldable pub held : Client → Name → List (Name × Clients) → Bool
unfolding occurs find
held x k prfx = occurs ⦃e = client_test⦄ x (vector_at ⦃e = name_test⦄ k prfx).items

unfoldable pub given : Client → List Name → List (Name × Clients) → Bool
unfolding held
given x [] prfx = false
given x (k ∷ ks) prfx = held x k prfx || given x ks prfx

is_live-push_all :
    (x : Client) (is : List (Item Client)) (v : Clients)
    → is_live x (push_all is v).items ≡ (is_live x v.items || occurs ⦃e = client_test⦄ x is)
unfolding occurs
is_live-push_all x [] v = ground arith
is_live-push_all x (i ∷ is) v =
    is_live-push_all x is (push_unique ⦃e = client_test⦄ i.value v)
    ∙ rw (is_live-push_unique ⦃e = client_test⦄ x i.value v) (ground arith)

is_live-push_key :
    (x : Client) (prfx : List (Name × Clients)) (k : Name) (v : Clients)
    → is_live x (push_key prfx k v).items ≡ (is_live x v.items || held x k prfx)
unfolding held occurs new
is_live-push_key x prfx k v = elim (Option-cases (find ⦃e = name_test⦄ k prfx)) [
  | inl missing ↦ rw (missing, push_key) (ground arith)
  | inr (w, there) ↦ rw (there, push_key) (is_live-push_all x w.items v)
]

pub is_live-push_keys :
    (x : Client) (prfx : List (Name × Clients)) (ks : List Name) (v : Clients)
    → is_live x (push_keys prfx ks v).items ≡ (is_live x v.items || given x ks prfx)
unfolding given
is_live-push_keys x prfx [] v = ground arith
is_live-push_keys x prfx (k ∷ ks) v =
    is_live-push_keys x prfx ks (push_key prfx k v)
    ∙ rw (is_live-push_key x prfx k v) (ground arith)

-- A registration adds its callback at its prefix.
held-register :
    (x c : Client) (p k : Name) (prfx : List (Name × Clients))
    → held x k (at_key ⦃e = name_test⦄ (emplace_back c) p prfx)
      ≡ (held x k prfx || (bytes_equal p k && client_beq x c))
unfolding held emplace_back
held-register x c p k prfx = elim (Bool-cases (bytes_equal p k)) [
  | inl b ↦
      let same = bytes_equal-≡ p k b in
      let here : vector_at ⦃e = name_test⦄ k (at_key ⦃e = name_test⦄ (emplace_back c) p prfx)
          ≡ emplace_back c (vector_at ⦃e = name_test⦄ k prfx) =
        rw same (vector_at-at_key ⦃e = name_test⦄ (emplace_back c) k prfx) in
      ap (λ (w : Clients). occurs ⦃e = client_test⦄ x w.items) here
      ∙ occurs-append ⦃e = client_test⦄ x c (vector_at ⦃e = name_test⦄ k prfx).items
      ∙ (rw b refl)
  | inr b ↦
      let here = vector_at-at_key_other ⦃e = name_test⦄ (emplace_back c) p k prfx b in
      ap (λ (w : Clients). occurs ⦃e = client_test⦄ x w.items) here ∙ (rw b (ground arith))
]

bytes_equal_sym : (a b : Name) → bytes_equal a b ≡ bytes_equal b a
bytes_equal_sym a b = elim (Bool-cases (bytes_equal a b)) [
  | inl h ↦ h ∙ sym ((bytes_equal_iff b a).1 (sym (bytes_equal-≡ a b h)))
  | inr h ↦ elim (Bool-cases (bytes_equal b a)) [
    | inl k ↦ (bytes_equal_iff a b).1 (sym (bytes_equal-≡ b a k)) ∙ sym k
    | inr k ↦ h ∙ sym k
  ]
]

pub given-register :
    (x c : Client) (p : Name) (ks : List Name) (prfx : List (Name × Clients))
    → given x ks (at_key ⦃e = name_test⦄ (emplace_back c) p prfx)
      ≡ (given x ks prfx || (member ⦃e = name_test⦄ p ks && client_beq x c))
unfolding given
given-register x c p [] prfx = refl
given-register x c p (k ∷ ks) prfx =
    let sides : bytes_equal k p ≡ bytes_equal p k = bytes_equal_sym k p in
    rw (held-register x c p k prfx, given-register x c p ks prfx, sides) (ground arith)
