-- ===== src/Heap/Laws.antt =====
-- A heap of utheap.h as a bag whose least element stands in front.
use yamal.Base.{
  ==_iff, Bool, Bool-cases, ap, arith, false, inl, inr, none, refl, some, subst, suc, sym, true,
  zero, ℕ, ◌+◌, ◌-◌, ◌<◌, ◌==◌, ◌∙◌, ◌≡◌,
}
use yamal.Heap.{
  Array, parent_index, put, swap, utarray_front, utheap_pop, utheap_push, without_first,
}
use yamal.Heap.Count.{
  one_if, tally, tally-heapify_down, tally-heapify_up, tally-put_end, tally-swap,
}
use yamal.Heap.Down.{IsOrder, heapify_down-IsHeap, in_order, irrefl}
use yamal.Heap.Up.{IsHeap, heapify_up-IsHeap}

module _ {T : Type 0} (cmp : T → T → Bool) (o : IsOrder cmp) where
  -- Every element but the first may stand below its parent.
  abbrev pub IsValid : Array T → Type 0
  IsValid a = IsHeap (in_order cmp) a.at a.i

  abbrev pub members : (T → Bool) → Array T → ℕ
  members f a = tally f a.at a.i

  -- A parent that may stand above: transitivity, and what the loop's test decides.
  in_order_trans :
      (a b c : T) → in_order cmp a b ≡ true → in_order cmp b c ≡ true → in_order cmp a c ≡ true
  in_order_trans a b c h k =
      let h' : cmp b a ≡ false = ground (arith, h) in
      let k' : cmp c b ≡ false = ground (arith, k) in rw (o.trans a b c h' k') refl

  in_order_stop : (p c : T) → cmp p c ≡ true → in_order cmp p c ≡ true
  in_order_stop p c h = rw (o.asym p c h) refl

  in_order_go : (p c : T) → cmp p c ≡ false → in_order cmp c p ≡ true
  in_order_go p c h = rw h refl

  -- For any strict order, utheap_push of a value on a heap leaves a heap, in which every test
  -- holds of as many elements as before and the value.
  pub utheap_push-IsValid :
      (val : T) (a : Array T)
      → IsValid a
      → IsValid (utheap_push cmp val a)
        × ((f : T → Bool) → members f (utheap_push cmp val a) ≡ one_if f val + members f a)
  unfolding utheap_push
  utheap_push-IsValid val a v = (
    heapify_up-IsHeap (in_order cmp) cmp in_order_stop in_order_go in_order_trans (a.i + 1) a.i
        (put a.at a.i val) (a.i + 1) (omega arith) (omega arith)
        (record {
          edges = λ k b c d. ground (arith, d, c, v k b);
          skip = λ k b c d e. absurd (omega (arith, b, c, d));
        }),
    λ f.
        tally-heapify_up f cmp (a.i + 1) a.i (put a.at a.i val) (a.i + 1) (omega arith)
        ∙ (let e : a.i + 1 ≡ suc a.i = omega arith in rw e (tally-put_end f a.at val a.i)),
  )

  -- No element comes before the first.
  first_least :
      (d : ℕ → T) (n fuel k : ℕ)
      → IsHeap (in_order cmp) d n
      → k < fuel
      → k < n
      → cmp (d k) (d 0) ≡ false
  first_least d n zero k h f b = absurd (omega (arith, f))
  first_least d n (suc fuel) zero h f b = irrefl cmp o (d 0)
  first_least d n (suc fuel) (suc k) h f b =
      let p = parent_index (suc k) in
      let edge : cmp (d (suc k)) (d p) ≡ false = ground (arith, h (suc k) (omega arith) b) in
      o.trans (d 0) (d p) (d (suc k))
        (first_least d n fuel p h (omega (arith, f)) (omega (arith, b))) edge

  without_first-IsHeap :
      (n : ℕ) (d : ℕ → T)
      → IsHeap (in_order cmp) d (suc n)
      → IsHeap (in_order cmp) (without_first cmp n d) n
  unfolding without_first
  without_first-IsHeap n d h = elim (Bool-cases (n == 0)) [
    | inl e ↦ λ k a b. absurd (ground (arith, e, b))
    | inr e ↦ rw e (
        heapify_down-IsHeap cmp o n 1 (swap d 0 n) n (omega arith) (ground (arith, e)) (omega arith)
          (record {
            edges = λ k a b c. ground (arith, a, b, c, h k a);
            skip = λ k a b c z. absurd (omega (arith, z));
          }))
  ]

  without_first-tally :
      (f : T → Bool) (n : ℕ) (d : ℕ → T)
      → one_if f (d 0) + tally f (without_first cmp n d) n ≡ tally f d (suc n)
  unfolding without_first tally
  without_first-tally f n d =
      let swapped = tally-swap f d 0 n (suc n) (omega arith) (omega arith) in
      let back : swap d 0 n n ≡ d 0 = ground arith in
      elim (Bool-cases (n == 0)) [
        | inl e ↦ let q = (==_iff n 0).0 e in rw q (ground arith)
        | inr e ↦ rw e (
            let down =
              tally-heapify_down f cmp n 1 (swap d 0 n) n (omega arith) (ground (arith, e)) in
            omega (arith, down, swapped, ap (one_if f) back))
      ]

  -- The array without its first element.
  abbrev rest_of : Array T → Array T
  rest_of a = record { at = without_first cmp (a.i - 1) a.at; i = a.i - 1 }

  -- For any strict order, of a heap with a front, utheap_pop leaves a heap, in which with the
  -- front every test holds of as many elements as before, and no element of the heap comes before
  -- the front.
  pub utheap_pop-IsValid :
      (a : Array T) (x : T)
      → IsValid a
      → utarray_front a ≡ some x
      → IsValid (utheap_pop cmp a)
        × ((f : T → Bool) → one_if f x + members f (utheap_pop cmp a) ≡ members f a)
        × ((k : ℕ) → k < a.i → cmp (a.at k) x ≡ false)
  unfolding utheap_pop utarray_front
  utheap_pop-IsValid a x v h =
      let n = a.i - 1 in
      let some_there : (a.i == 0) ≡ false = ground (arith, h) in
      let e : a.i ≡ suc n = ground (arith, some_there) in
      let first : a.at 0 ≡ x = ground (arith, h) in
      let step : utheap_pop cmp a ≡ rest_of a = rw some_there refl in
      let v' : IsHeap (in_order cmp) a.at (suc n) = subst (IsHeap (in_order cmp) a.at) e v in
      rw step (
        without_first-IsHeap n a.at v',
        λ f.
            ap (λ (y : T). one_if f y + tally f (without_first cmp n a.at) n) (sym first)
            ∙ without_first-tally f n a.at
            ∙ ap (tally f a.at) (sym e),
        λ k b.
            ap (cmp (a.at k)) (sym first)
            ∙ first_least a.at (suc n) (suc k) k v' (omega arith) (omega (arith, b, e)),
      )

-- An array without a front is empty, and one with a front gets shorter.
module _ {T : Type 0} (a : Array T) where
  pub utarray_front-none : utarray_front a ≡ none → a.i ≡ 0
  unfolding utarray_front
  utarray_front-none h = ground (arith, h)

  pub utheap_pop-size :
      (cmp : T → T → Bool) (x : T) → utarray_front a ≡ some x → (utheap_pop cmp a).i < a.i
  unfolding utheap_pop utarray_front
  utheap_pop-size cmp x h = ground (arith, h)
