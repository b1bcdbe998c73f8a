-- ===== src/Streams/Close.antt =====
-- src/ytp/stream.c: the four lists of the streams are closed one after the other.
-- What a call sets the error to is lost when the next call clears it; a call that does not end does
-- not come back.
use yamal.Base.{
  ==_iff, Bool-cases, Disjoint, Disjoint-last_of, Disjoint-nil, List, [], ap, arith, false,
  if◌then◌else◌, inl, inr, last_of, length, refl, subst, suc, sym, zero, ℕ, ◌+◌, ◌<◌, ◌==◌, ◌∙◌,
  ◌∷◌, ◌≡◌, ◌≢◌,
}
use yamal.Cursor.Array.{same}
use yamal.Cursor.State.{done}
use yamal.Yamal.Chain.{Counts-same, Nexts-Behind, Nexts-kept, Prevs-same}
use yamal.Yamal.Close.{ytp_closable, ytp_yamal_close}
use yamal.Yamal.Close.Laws.{IsEnded, sealed, ytp_yamal_close-closes}
use yamal.Yamal.State.{M, Result, Yamal, err, hang, head, ok}

abbrev next_list :
    Result (Unit {0}) × Yamal → (Result (Unit {0}) → M (Unit {0})) → Result (Unit {0}) × Yamal
next_list (ok u, y) f = f (ok u) y
next_list (err e, y) f = f (err e) y
next_list (hang, y) f = (hang, y)

-- The loop, with the rounds left and what the call before left in the error.
pub close_lists : ℕ → ℕ → ℕ → Result (Unit {0}) → M (Unit {0})
close_lists zero fuel lstidx r y = (r, y)
close_lists (suc n) fuel lstidx r y =
    next_list (ytp_yamal_close fuel lstidx y) (close_lists n fuel (lstidx + 1))

-- YTP_STREAM_LIST_MAX + 1 - YTP_STREAM_LIST_MIN.
abbrev pub stream_lists : ℕ
stream_lists = 4

pub ytp_stream_close : ℕ → M (Unit {0})
unfolding close_lists
ytp_stream_close fuel = close_lists stream_lists fuel 0 (ok tt)

-- A list that shares no node with one that is closed is left as it is.
sealed-others :
    (l : ℕ) (os : List ℕ) (other : ℕ) (ps : List ℕ) (fin : ℕ) (y : Yamal)
    → Disjoint (head l ∷ os) (head other ∷ ps)
    → IsEnded y other ps fin
    → IsEnded (sealed l os y) other ps fin
sealed-others l os other ps fin y d v =
    let k = last_of (head l) os in
    let apart = Disjoint-last_of (head l) os (head other ∷ ps) d in
    let w = v.list in
    let (bs, rest, e, hint) = v.hint in
    record {
      list = record {
        header = w.header;
        index = w.index;
        nexts =
            Nexts-kept y.pages y.node (sealed l os y).node k (head other) ps fin
              (λ p h. ground arith) apart w.nexts;
        prevs =
            Prevs-same y.node (sealed l os y).node [] (head other) ps (λ p b a. ground arith)
              (Nexts-Behind y.pages y.node (head other) ps fin w.nexts) (Disjoint-nil ps) w.prevs;
        counts =
            Counts-same y.node (sealed l os y).node [] (head other) ps (λ p a. ground arith)
              (Disjoint-nil (head other ∷ ps)) w.counts;
      };
      hint = (bs, rest, e, (ground (arith, hint)));
      ended = v.ended;
    }

-- The four lists, with no node in common.
module _ (os : ℕ → List ℕ) (fuel : ℕ) (enough : (l : ℕ) → l < stream_lists → length (os l) < fuel)
    (apart : (l m : ℕ)
      → l < stream_lists
      → m < stream_lists
      → l ≢ m
      → Disjoint (head l ∷ os l) (head m ∷ os m)) where
  -- The file, with the ends of the lists.
  pub record IsClosable (y : Yamal) (fin : ℕ → ℕ) : Type 0 where
    pub each : (l : ℕ) → l < stream_lists → IsEnded y l (os l) (fin l)
    pub writable : y.readonly ≡ false
    pub mode : y.closable ≡ ytp_closable

  -- A list that is closed already changes nothing.
  either :
      (l m : ℕ) (y : Yamal) (fin : ℕ → ℕ)
      → Disjoint (head l ∷ os l) (head m ∷ os m)
      → IsEnded y m (os m) (fin m)
      → IsEnded (if fin l == 0 then sealed l (os l) y else y) m (os m) (fin m)
  either l m y fin d w = elim (Bool-cases (fin l == 0)) [
    | inl b ↦ rw b (sealed-others l (os l) m (os m) (fin m) y d w)
    | inr b ↦ rw b w
  ]

  -- One call closes its list, and leaves the others as they are.
  close_one :
      (l : ℕ) (y : Yamal) (fin : ℕ → ℕ)
      → l < stream_lists
      → IsClosable y fin
      → (y' : Yamal) × (ytp_yamal_close fuel l y ≡ (ok tt, y'))
        × IsClosable y' (λ m. if m == l then head l else fin m)
  close_one l y fin b v =
      let (y', run, ended', same) =
        ytp_yamal_close-closes fuel l (os l) (fin l) y (v.each l b) v.writable v.mode
          (enough l b) in
      (
        y',
        run,
        record {
          each = λ m c. elim (Bool-cases (m == l)) [
            | inl e ↦
                let q : m ≡ l = (==_iff m l).0 e in
                rw e (subst (λ i. IsEnded y' i (os i) (head l)) (sym q) ended')
            | inr e ↦
                let ne : l ≢ m = λ q. absurd (ground (arith, e, q)) in
                rw e (
                  subst (λ z. IsEnded z m (os m) (fin m)) (sym same)
                    (either l m y fin (apart l m b c ne) (v.each m c)))
          ];
          writable = ap (λ (z : Yamal). z.readonly) same ∙ (ground (arith, v.writable));
          mode = ap (λ (z : Yamal). z.closable) same ∙ (ground (arith, v.mode));
        },
      )

  close_rest :
      (n i : ℕ) (y : Yamal) (fin : ℕ → ℕ)
      → i + n ≡ stream_lists
      → IsClosable y fin
      → ((l : ℕ) → l < i → fin l ≡ head l)
      → (y' : Yamal) × (close_lists n fuel i (ok tt) y ≡ (ok tt, y'))
        × ((l : ℕ) → l < stream_lists → IsEnded y' l (os l) (head l))
  unfolding close_lists
  close_rest zero i y fin e v done =
      (y, refl, λ l b. subst (IsEnded y l (os l)) (done l (omega (arith, e, b))) (v.each l b))
  close_rest (suc n) i y fin e v done =
      let (y1, run, v1) = close_one i y fin (omega (arith, e)) v in
      let (y2, runs, all) =
        close_rest n (i + 1) y1 (λ m. if m == i then head i else fin m) (omega (arith, e)) v1
          (λ l b. elim (Bool-cases (l == i)) [
            | inl q ↦ rw q (ap head (sym ((==_iff l i).0 q)))
            | inr q ↦ rw q (done l (ground (arith, q, b)))
          ]) in
      (y2, (rw run runs), all)

  -- On a closable file of a writer, whose four lists of streams are open or closed and share no
  -- node, and with fuel beyond their lengths, ytp_stream_close ends without an error and leaves
  -- all four closed with the nodes that they had.
  pub ytp_stream_close-closes :
      (y : Yamal) (fin : ℕ → ℕ)
      → IsClosable y fin
      → (y' : Yamal) × (ytp_stream_close fuel y ≡ (ok tt, y'))
        × ((l : ℕ) → l < stream_lists → IsEnded y' l (os l) (head l))
  unfolding ytp_stream_close
  ytp_stream_close-closes y fin v =
      close_rest stream_lists 0 y fin (omega arith) v (λ l b. absurd (omega (arith, b)))
