-- ===== src/Tests/YamalTests.antt =====
-- The theorems on files and lists, at the small files.
use yamal.Base.{[], arith, false, map, refl, ℕ, ◌*◌, ◌+◌, ◌∷◌, ◌≡◌}
use yamal.Tests.Files.{
  blank_file, blank_file-IsBlank, blank_file-IsReliable, busy-IsOpen, busy-IsReserved, busy_closed,
  busy_file, busy_open, empty-HasRoom, empty_file,
}
use yamal.Yamal.Chain.{IsList}
use yamal.Yamal.Close.{ytp_closable, ytp_yamal_close}
use yamal.Yamal.Close.Laws.{IsEnded, sealed, ytp_yamal_close-closes}
use yamal.Yamal.Commit.{ytp_yamal_commit}
use yamal.Yamal.Commit.Laws.{
  Appends, IsOpen, ytp_yamal_commit-Appends, ytp_yamal_commit-closed, ytp_yamal_commit-others,
}
use yamal.Yamal.Init.{ytp_yamal_init_3}
use yamal.Yamal.Init.Laws.{ytp_yamal_init_3-IsFile}
use yamal.Yamal.Iter.Laws.{message_of, read_all, read_all_lem}
use yamal.Yamal.Publish.{IsFile}
use yamal.Yamal.Reserve.{reserve_loop, ytp_yamal_reserve}
use yamal.Yamal.Reserve.Bounds.{
  IsFresh, Taken, reserve_loop_endless, reserve_loop_total, ytp_yamal_reserve-IsFresh,
}
use yamal.Yamal.State.{Yamal, closed, err, hang, ok}

ytp_yamal_commit-Appends_example : Appends 2 busy_file 0 (536 ∷ []) 616 (656 ∷ [])
ytp_yamal_commit-Appends_example =
    ytp_yamal_commit-Appends 2 busy_file 0 (536 ∷ []) 616 (656 ∷ []) busy-IsOpen busy-IsReserved
      (omega arith) (omega arith)

ytp_yamal_commit-closed_example : ytp_yamal_commit 2 648 1 busy_file ≡ (err closed, busy_file)
ytp_yamal_commit-closed_example =
    ytp_yamal_commit-closed 2 busy_file 1 (576 ∷ []) 648 busy_closed.list busy_closed.hint
      (omega arith)

-- List 1 is as it was after a commit to list 0.
ytp_yamal_commit-others_example :
    (y' : Yamal) × (ytp_yamal_commit 2 648 0 busy_file ≡ (ok 544, y'))
    × IsOpen y' 0 (536 ∷ 616 ∷ 656 ∷ [])
    × IsList y' 1 (576 ∷ []) 48
ytp_yamal_commit-others_example =
    ytp_yamal_commit-others 2 busy_file 0 (536 ∷ []) 616 (656 ∷ []) 1 (576 ∷ []) 48 busy-IsOpen
      busy-IsReserved (omega arith) (omega arith) busy_closed.list (omega arith) (omega arith)

ytp_yamal_reserve-IsFresh_example :
    (offs : ℕ) × (p : ℕ) × (y' : Yamal) × (ytp_yamal_reserve 2 100 empty_file ≡ (ok p, y'))
    × IsFresh 100 empty_file y' offs p
ytp_yamal_reserve-IsFresh_example =
    ytp_yamal_reserve-IsFresh 2 100 empty_file (empty-HasRoom 100 (omega arith) (omega arith))

-- A node that ends where its page ends takes one round, and one that does not takes another.
reserve_loop_total_example :
    (offs : ℕ) × (y' : Yamal) × (reserve_loop 2 8388000 empty_file ≡ (ok offs, y'))
    × Taken 8388000 (536 + 2 * 8388000) empty_file y' offs
reserve_loop_total_example =
    reserve_loop_total 2 8388000 608 empty_file refl (omega arith) (omega arith) (omega arith)

reserve_loop_endless_example : (reserve_loop 1000 8388616 empty_file).0 ≡ hang
reserve_loop_endless_example =
    reserve_loop_endless 1000 8388616 empty_file (omega arith) (omega arith)

read_all_lem_example :
    read_all 2 0 busy_file ≡ (ok (map (message_of busy_file.node) (536 ∷ [])), busy_file)
read_all_lem_example =
    read_all_lem 2 0 (536 ∷ []) 0 busy_file busy-IsOpen.list (omega arith) (omega arith)

ytp_yamal_close-closes_example :
    (y' : Yamal) × (ytp_yamal_close 2 0 busy_file ≡ (ok tt, y'))
    × IsEnded y' 0 (536 ∷ []) 16
    × (y' ≡ sealed 0 (536 ∷ []) busy_file)
ytp_yamal_close-closes_example =
    ytp_yamal_close-closes 2 0 (536 ∷ []) 0 busy_file busy_open refl refl (omega arith)

ytp_yamal_init_3-IsFile_example :
    (y' : Yamal) × (ytp_yamal_init_3 false ytp_closable blank_file ≡ (ok tt, y'))
    × IsFile y' 5 []
    × (y'.closable ≡ 1)
ytp_yamal_init_3-IsFile_example =
    ytp_yamal_init_3-IsFile ytp_closable 5 blank_file blank_file-IsReliable blank_file-IsBlank
      (omega arith)
