-- ===== src/Yamal/Race/Safety.antt =====
-- What holds in every order of the turns.
use yamal.Base.{
  Bool, List, [], append-nil, arith, false, last_of, refl, subst, sym, true, ℕ, ◌++◌, ◌==◌, ◌∙◌,
  ◌≡◌, ◌≢◌, ◌⊎◌,
}
use yamal.Yamal.Chain.{Counts, Counts-drop, Nexts, Nexts-drop, Prevs, Prevs-drop}
use yamal.Yamal.Race.{
  Nodes, Pc, Reach, System, advance, following, found, here, later, linked, loaded, numbering,
  reading, ready, refused, returned, sealing, seeking, shut, start, to_close, turn, walking,
}
use yamal.Yamal.Race.Frame.{Effect-IsLocal}
use yamal.Yamal.Race.Inv.{Inv, IsLocal, IsPlaced, IsShared, Log, LogStep}
use yamal.Yamal.Race.Moves.{
  Moved, following-Moved, loaded-Moved, reading-Moved, refused-Moved, returned-Moved, seeking-Moved,
  shut-Moved, start-Moved, to_close-Moved, walking-Moved,
}
use yamal.Yamal.Race.Own.{found-Moved, numbering-Moved}
use yamal.Yamal.Race.Seal.{sealing-Moved}
use yamal.Yamal.Race.Serial.{IsSerial, IsSerial-step}
use yamal.Yamal.Race.Spot.{prefixes}
use yamal.Yamal.Race.Writes.{linked-Moved, ready-Moved}

-- The turn of a process, by where it stands.
module _ (pages : ℕ → Bool) (n : Nodes) (h : ℕ) (log : Log) (xs : List ℕ) where
  advance-Moved :
      (p : Pc)
      → IsShared pages n h log
      → IsLocal pages n h log xs p
      → Moved pages n h log xs (advance h p n)
  advance-Moved (start mem) s l = start-Moved pages n h log xs s mem l
  advance-Moved (loaded mem offs) s l = loaded-Moved pages n h log xs s mem offs l
  advance-Moved (walking mem offs at) s l = walking-Moved pages n h log xs s mem offs at l
  advance-Moved (found mem offs at) s l = found-Moved pages n h log xs s mem offs at l
  advance-Moved (numbering mem offs at cur seqno) s l =
      numbering-Moved pages n h log xs s mem offs at cur seqno l
  advance-Moved (ready mem offs at) s l = ready-Moved pages n h log xs s mem offs at l
  advance-Moved (linked offs at) s l = linked-Moved pages n h log xs s offs at l
  advance-Moved (returned at) s l = returned-Moved pages n h log xs s at l
  advance-Moved refused s l = refused-Moved pages n h log xs s l
  advance-Moved to_close s l = to_close-Moved pages n h log xs s
  advance-Moved (seeking at) s l = seeking-Moved pages n h log xs s at l
  advance-Moved (sealing at) s l = sealing-Moved pages n h log xs s at l
  advance-Moved shut s l = shut-Moved pages n h log xs s l
  advance-Moved (reading at ys) s l = reading-Moved pages n h log xs s at ys l
  advance-Moved (following at ys) s l = following-Moved pages n h log xs s at ys l

module _ (pages : ℕ → Bool) (h : ℕ) (mine : ℕ → List ℕ) (log : Log) (i : ℕ) (s : System) where
  module _ (v : Inv pages h mine log s) where
    moved : Moved pages s.node h log (mine i) (advance h (s.pc i) s.node)
    moved = advance-Moved pages s.node h log (mine i) (s.pc i) v.shared (v.local i)

    IsLocal-after :
        (j : ℕ) (b : Bool)
        → (i == j) ≡ b
        → IsLocal pages (turn h i s).node h moved.log' (mine j) ((turn h i s).pc j)
    unfolding turn
    IsLocal-after j true e =
        let q : i ≡ j = ground (arith, e) in
        subst (λ k. IsLocal pages (turn h i s).node h moved.log' (mine k) ((turn h i s).pc k)) q
          (ground (arith, moved.local))
    IsLocal-after j false e =
        let d : i ≢ j = ground (arith, e) in
        rw e (
          Effect-IsLocal moved.effect (mine j) (v.apart j i (λ q. d (sym q))) pages (s.pc j)
            (v.local j))

    IsShared-after : IsShared pages (turn h i s).node h moved.log'
    unfolding turn
    IsShared-after = moved.shared

    -- A turn of any process keeps the invariant, and the log changes by no more than that process's
    -- step.
    pub turn-Inv : (log' : Log) × LogStep h (mine i) log log' × Inv pages h mine log' (turn h i s)
    turn-Inv = (
      moved.log',
      moved.step,
      record {
        shared = IsShared-after;
        apart = v.apart;
        local = λ j. IsLocal-after j (i == j) refl;
      },
    )

-- From a state with the invariant, in which no two processes have a node in common, whatever the
-- order of turns, the list is again linked forward and back with numbers that go on, and each
-- process knows what the invariant says; the list is the first one followed by the nodes of some
-- processes, one process after the other and each at most once, and a list that was closed is
-- unchanged and closed.
pub Reach-IsSerial :
    (pages : ℕ → Bool) (h : ℕ) (mine : ℕ → List ℕ) (log : Log) (s u : System)
    → Inv pages h mine log s
    → Reach h s u
    → (log' : Log) × IsSerial h mine log log' × Inv pages h mine log' u
Reach-IsSerial pages h mine log s u v here = (
  log,
  record { ks = []; once = tt; grown = sym (append-nil log.os); sealed = λ c. (refl, c) },
  v,
)
Reach-IsSerial pages h mine log s u v (later {t} i r) =
    let (log', q, v') = Reach-IsSerial pages h mine log s t v r in
    let (log'', p, v'') = turn-Inv pages h mine log' i t v' in
    (log'', IsSerial-step h mine log log' log'' i v.shared.nonzero q p, v'')

-- From a state with the invariant, whatever the order of turns, the nodes of a process whose
-- ytp_yamal_commit has returned stand in the list right behind the node of the returned iterator,
-- in order and next to each other, linked forward and back and with numbers that go on.
pub Reach-returned :
    (pages : ℕ → Bool) (h : ℕ) (mine : ℕ → List ℕ) (log : Log) (s u : System) (i at : ℕ)
    → Inv pages h mine log s
    → Reach h s u
    → u.pc i ≡ returned at
    → (rest : List ℕ) × (fin : ℕ) × Nexts pages u.node at (mine i ++ rest) fin
      × Prevs u.node at (mine i ++ rest)
      × Counts u.node at (mine i ++ rest)
Reach-returned pages h mine log s u i at v r e =
    let (log', _, v') = Reach-IsSerial pages h mine log s u v r in
    let (bs, rest, q, l) : IsPlaced h log'.os (mine i) at =
      subst (IsLocal pages u.node h log' (mine i)) e (v'.local i) in
    let back : (P : ℕ → Type 0) → P (last_of h bs) → P at = λ P x. subst P (sym l) x in
    (
      rest,
      log'.fin,
      back (λ p. Nexts pages u.node p (mine i ++ rest) log'.fin)
          (Nexts-drop pages u.node h bs (mine i ++ rest) log'.fin
            (subst (λ os. Nexts pages u.node h os log'.fin) q v'.shared.nexts)),
      back (λ p. Prevs u.node p (mine i ++ rest))
          (Prevs-drop u.node h bs (mine i ++ rest) (subst (Prevs u.node h) q v'.shared.prevs)),
      back (λ p. Counts u.node p (mine i ++ rest))
          (Counts-drop u.node h bs (mine i ++ rest) (subst (Counts u.node h) q v'.shared.counts)),
    )

-- From a state with the invariant, whatever the order of turns, of two processes that read the
-- list the nodes that one has read begin the nodes that the other has read.
pub Reach-reading :
    (pages : ℕ → Bool) (h : ℕ) (mine : ℕ → List ℕ) (log : Log) (s u : System) (i j at at' : ℕ)
    (xs ys : List ℕ)
    → Inv pages h mine log s
    → Reach h s u
    → u.pc i ≡ reading at xs
    → u.pc j ≡ reading at' ys
    → (zs : List ℕ) × ((ys ≡ xs ++ zs) ⊎ (xs ≡ ys ++ zs))
Reach-reading pages h mine log s u i j at at' xs ys v r e f =
    let (log', _, v') = Reach-IsSerial pages h mine log s u v r in
    let a : IsLocal pages u.node h log' (mine i) (reading at xs) =
      subst (IsLocal pages u.node h log' (mine i)) e (v'.local i) in
    let b : IsLocal pages u.node h log' (mine j) (reading at' ys) =
      subst (IsLocal pages u.node h log' (mine j)) f (v'.local j) in
    prefixes xs ys a.0 b.0 (sym a.1 ∙ b.1)
