-- ===== src/Tests/RaceTests.antt =====
-- Two writers, a closer and readers on one list, with turns in some order.
use yamal.Base.{
  Bool, Disjoint, List, [], arith, inl, refl, suc, zero, ℕ, ◌++◌, ◌+◌, ◌==◌, ◌∷◌, ◌≡◌, ◌≢◌, ◌⊎◌,
}
use yamal.Tests.Files.{busy-IsOpen, busy-IsReserved, busy_file, node_at}
use yamal.Yamal.Chain.{Counts, Nexts, Prevs}
use yamal.Yamal.Commit.{ytp_yamal_commit}
use yamal.Yamal.Race.{Pc, Reach, System, here, later, reading, returned, start, to_close, turn}
use yamal.Yamal.Race.Inv.{Inv, IsLocal, IsShared, IsWriting, Log}
use yamal.Yamal.Race.Safety.{Reach-IsSerial, Reach-reading, Reach-returned}
use yamal.Yamal.Race.Serial.{IsSerial}
use yamal.Yamal.Race.Solo.{alone, alone-ytp_yamal_commit}
use yamal.Yamal.State.{Node, ok}

-- List 0 has a message at 536. The first process commits the nodes at 616 and 656, the second one the
-- node at 696, the third one closes the list, and all others read it.
abbrev race_nodes : List (ℕ × Node)
race_nodes =
    (16, record { size = 0; next = 536; prev = 536; seqno = 0 })
    ∷ (536, record { size = 8; next = 0; prev = 16; seqno = 1 })
    ∷ (616, record { size = 8; next = 656; prev = 616; seqno = 0 })
    ∷ (656, record { size = 8; next = 0; prev = 616; seqno = 0 })
    ∷ (696, record { size = 8; next = 0; prev = 696; seqno = 0 })
    ∷ []

abbrev race_mine : ℕ → List ℕ
race_mine zero = 616 ∷ 656 ∷ []
race_mine (suc zero) = 696 ∷ []
race_mine (suc (suc i)) = []

abbrev race_pc : ℕ → Pc
race_pc zero = start 616
race_pc (suc zero) = start 696
race_pc (suc (suc zero)) = to_close
race_pc (suc (suc (suc i))) = reading 16 []

abbrev race_log : Log
race_log = record { os = 536 ∷ []; fin = 0 }

abbrev race : System
race = record { node = node_at race_nodes; pc = race_pc }

one_page : ℕ → Bool
one_page p = p == 0

-- The first writer has numbered its nodes behind 536 when the second one links its node there.
abbrev order : List ℕ
order =
    3 ∷ 3 ∷ 4 ∷ 4 ∷ 3 ∷ 3 ∷ 3 ∷ 3 ∷ 0 ∷ 0 ∷ 0 ∷ 0 ∷ 0 ∷ 0 ∷ 0 ∷ 0 ∷ 0 ∷ 1 ∷ 1 ∷ 1 ∷ 1 ∷ 1 ∷ 1 ∷ 1
    ∷ 0 ∷ 0 ∷ 0 ∷ 0 ∷ []

-- The turns of a list, the last one first.
abbrev run : List ℕ → System → System
run [] s = s
run (i ∷ is) s = turn 16 i (run is s)

run-Reach : (is : List ℕ) (s : System) → Reach 16 s (run is s)
run-Reach [] s = here
run-Reach (i ∷ is) s = later i (run-Reach is s)

race-IsShared : IsShared one_page race.node 16 race_log
unfolding one_page
race-IsShared = record {
  low = omega arith;
  nonzero = omega arith;
  nexts = (refl, omega arith, (omega arith, refl), refl);
  prevs = (refl, tt);
  counts = (refl, tt);
  ended = inl refl;
  hint = (536 ∷ [], [], refl, refl);
}

first_writer : IsWriting one_page race.node 16 race_log (616 ∷ 656 ∷ []) 616
unfolding one_page
first_writer = record {
  ns = 656 ∷ [];
  mine = refl;
  own = record {
    behind = omega arith;
    mapped = (omega arith, refl);
    nexts = (refl, omega arith, (omega arith, refl), refl);
    prevs = (refl, tt);
    distinct = omega arith;
    disjoint = omega arith;
  };
}

second_writer : IsWriting one_page race.node 16 race_log (696 ∷ []) 696
unfolding one_page
second_writer = record {
  ns = [];
  mine = refl;
  own = record {
    behind = omega arith;
    mapped = (omega arith, refl);
    nexts = refl;
    prevs = tt;
    distinct = omega arith;
    disjoint = omega arith;
  };
}

race-Disjoint : (i j : ℕ) → i ≢ j → Disjoint (race_mine i) (race_mine j)
race-Disjoint zero zero h = absurd (h refl)
race-Disjoint zero (suc zero) h = omega arith
race-Disjoint zero (suc (suc j)) h = (tt, (tt, tt))
race-Disjoint (suc zero) zero h = omega arith
race-Disjoint (suc zero) (suc zero) h = absurd (h refl)
race-Disjoint (suc zero) (suc (suc j)) h = (tt, tt)
race-Disjoint (suc (suc i)) j h = tt

race-IsLocal : (i : ℕ) → IsLocal one_page race.node 16 race_log (race_mine i) (race_pc i)
race-IsLocal zero = (first_writer, refl)
race-IsLocal (suc zero) = (second_writer, refl)
race-IsLocal (suc (suc zero)) = tt
race-IsLocal (suc (suc (suc i))) = (536 ∷ [], refl, refl)

race-Inv : Inv one_page 16 race_mine race_log race
race-Inv = record { shared = race-IsShared; apart = race-Disjoint; local = race-IsLocal }

Reach-IsSerial_example :
    (log' : Log) × IsSerial 16 race_mine race_log log'
    × Inv one_page 16 race_mine log' (run order race)
Reach-IsSerial_example =
    Reach-IsSerial one_page 16 race_mine race_log race (run order race) race-Inv
      (run-Reach order race)

Reach-returned_example :
    (rest : List ℕ) × (fin : ℕ) × Nexts one_page (run order race).node 696 (616 ∷ 656 ∷ rest) fin
    × Prevs (run order race).node 696 (616 ∷ 656 ∷ rest)
    × Counts (run order race).node 696 (616 ∷ 656 ∷ rest)
unfolding turn
Reach-returned_example =
    Reach-returned one_page 16 race_mine race_log race (run order race) 0 696 race-Inv
      (run-Reach order race) refl

Reach-reading_example :
    (zs : List ℕ) × ((536 ∷ [] ≡ (536 ∷ 696 ∷ 616 ∷ []) ++ zs)
      ⊎ (536 ∷ 696 ∷ 616 ∷ [] ≡ (536 ∷ []) ++ zs))
unfolding turn
Reach-reading_example =
    Reach-reading one_page 16 race_mine race_log race (run order race) 3 4 616 536
      (536 ∷ 696 ∷ 616 ∷ []) (536 ∷ []) race-Inv (run-Reach order race) refl refl

alone-ytp_yamal_commit_example :
    (at : ℕ) × ((ytp_yamal_commit 2 648 0 busy_file).0 ≡ ok (at + 8))
    × (alone 16 8 (start 616, busy_file.node)
        ≡ (returned at, (ytp_yamal_commit 2 648 0 busy_file).1.node))
alone-ytp_yamal_commit_example =
    alone-ytp_yamal_commit busy_file 0 (536 ∷ []) [] 616 (656 ∷ []) busy-IsOpen.list refl
      busy-IsReserved 2 (omega arith) (omega arith)
