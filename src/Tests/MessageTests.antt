-- ===== src/Tests/MessageTests.antt =====
-- The theorems on messages, at the empty file.
use yamal.Base.{[], arith, load_le, load_le_zero, refl, ℕ, ◌<◌, ◌∷◌, ◌≡◌}
use yamal.Message.Announcement.{Announcement, ytp_announcement_read, ytp_announcement_write}
use yamal.Message.Announcement.RoundTrip.{
  ReadsAnnouncement, ytp_announcement_read-damaged, ytp_announcement_read-write,
}
use yamal.Message.Data.RoundTrip.{ReadsData, publish_data, ytp_data_read-publish}
use yamal.Message.Fields.{stream_list_anns, stream_list_data, stream_list_indx, stream_list_subs}
use yamal.Message.Index.{ytp_index_write}
use yamal.Message.Index.RoundTrip.{ReadsIndex, ytp_index_read-write}
use yamal.Message.Subscription.{SubMessage, ytp_subscription_read, ytp_subscription_write}
use yamal.Message.Subscription.RoundTrip.{ytp_subscription_read-write}
use yamal.Tests.Files.{busy_file, empty-HasRoom, empty-IsFile, empty_file}
use yamal.Yamal.Iter.Laws.{ytp_yamal_read_lem}
use yamal.Yamal.Publish.{IsFile}
use yamal.Yamal.State.{Yamal, ok}

no_bytes : (n a : ℕ) → load_le n (λ a. 0) a ≡ 0
no_bytes n a = load_le_zero n a (λ a. 0) (λ b h k. refl)

ytp_data_read-publish_example :
    (offs : ℕ) × (it : ℕ) × (y' : Yamal) × (publish_data 2 1000 216 (104 ∷ 105 ∷ []) empty_file
      ≡ (ok it, y'))
    × IsFile y' stream_list_data (offs ∷ [])
    × ReadsData it y' 1000 216 (104 ∷ 105 ∷ [])
ytp_data_read-publish_example =
    ytp_data_read-publish 2 1000 216 (104 ∷ 105 ∷ []) empty_file []
      (empty-IsFile stream_list_data (omega arith)) (empty-HasRoom 18 (omega arith) (omega arith))
      (omega arith) (omega arith) (omega arith)

ytp_announcement_read-write_example :
    (offs : ℕ) × (it : ℕ) × (y' : Yamal) × (ytp_announcement_write 2
        (112 ∷ [])
        (99 ∷ 104 ∷ [])
        (101 ∷ [])
        empty_file
      ≡ (ok it, y'))
    × IsFile y' stream_list_anns (offs ∷ [])
    × ReadsAnnouncement it y' (112 ∷ []) (99 ∷ 104 ∷ []) (101 ∷ [])
ytp_announcement_read-write_example =
    ytp_announcement_read-write 2 (112 ∷ []) (99 ∷ 104 ∷ []) (101 ∷ []) empty_file []
      (empty-IsFile stream_list_anns (omega arith)) (empty-HasRoom 28 (omega arith) (omega arith))
      (omega arith)

-- The message at 536 has 8 bytes, and two names of length 0.
ytp_announcement_read-damaged_example :
    (ann : Announcement) × (ytp_announcement_read 24 busy_file ≡ (ok ann, busy_file))
    × (8 < ann.esz)
ytp_announcement_read-damaged_example =
    ytp_announcement_read-damaged 24 0 0 busy_file (record { seqno = 1; size = 8; at = 568 })
      (ytp_yamal_read_lem busy_file 16 refl (omega arith, refl)) (omega arith) (no_bytes 4 584)
      (no_bytes 4 588) (omega arith) (omega arith) (omega arith)

ytp_index_read-write_example :
    (offs : ℕ) × (it : ℕ) × (y' : Yamal) × (ytp_index_write 2 216 1024 (104 ∷ []) empty_file
      ≡ (ok it, y'))
    × IsFile y' stream_list_indx (offs ∷ [])
    × ReadsIndex it y' 216 1024 (104 ∷ [])
ytp_index_read-write_example =
    ytp_index_read-write 2 216 1024 (104 ∷ []) empty_file []
      (empty-IsFile stream_list_indx (omega arith)) (empty-HasRoom 17 (omega arith) (omega arith))
      (omega arith) (omega arith) (omega arith)

ytp_subscription_read-write_example :
    (offs : ℕ) × (it : ℕ) × (y' : Yamal) × (m : SubMessage) × (ytp_subscription_write 2 216
        empty_file
      ≡ (ok it, y'))
    × IsFile y' stream_list_subs (offs ∷ [])
    × (ytp_subscription_read it y' ≡ (ok m, y'))
    × (m.stream ≡ 216)
ytp_subscription_read-write_example =
    ytp_subscription_read-write 2 216 empty_file [] (empty-IsFile stream_list_subs (omega arith))
      (empty-HasRoom 8 (omega arith) (omega arith)) (omega arith) (omega arith)
