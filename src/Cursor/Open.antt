-- ===== src/Cursor/Open.antt =====
-- src/ytp/cursor.c: how a cursor is set up.
use yamal.Base.{[], ℕ}
use yamal.Cursor.State.{Cursor}
use yamal.Message.Announcement.{ytp_announcement_begin}
use yamal.Message.Fields.{stream_list_data}
use yamal.Yamal.Iter.{ytp_yamal_begin}
use yamal.Yamal.State.{M, pure, ◌>>=◌}

-- `cb_ann_locked` is what the memory held: the function does not set it.
pub ytp_cursor_init : ℕ → M Cursor
ytp_cursor_init cb_ann_locked = do
  it_data ← ytp_yamal_begin stream_list_data
  it_ann ← ytp_announcement_begin
  pure (record {
    it_data = it_data;
    it_ann = it_ann;
    ann_processed = 0;
    cb_data = [];
    cb_ann = record { items = []; locked = cb_ann_locked };
  })
