-- ===== src/Yamal/Pages.antt =====
-- src/ytp/yamal.c: the mapping of the file page by page, the file's size, and the start of a
-- handle. `fmc_fview_init` of a page is a bit of `pages`.
pub mod Laws
use yamal.Base.{
  Bool, if◌then◌else◌, leb, ltb, none, not, some, suc, true, zero, ℕ, ◌%◌, ◌*◌, ◌+◌, ◌-◌, ◌/◌, ◌==◌,
}
use yamal.Yamal.State.{
  M, Yamal, err, fail, fault, gets, mmap_failed, modify, mutex_lock, mutex_unlock, ok, os_error,
  page_count_max, page_out_of_range, page_size, prealloc_size, pure, require, unexpected_eof, word,
  ◌>>=◌, ◌>>◌,
}

abbrev pub set_page : ℕ → Bool → Yamal → Yamal
set_page p b y = record y { pages = λ q. if p == q then b else y.pages q }

abbrev pub set_len : ℕ → Yamal → Yamal
set_len n y = record y { file = record y.file { len = n } }

-- The file is made long enough, or is long enough for a reader.
pub grow : ℕ → M (Unit {0})
grow size y =
    if y.readonly
    then require (not (ltb y.len size)) unexpected_eof y
    else elim (y.os.falloc y.len size) [ none ↦ fail os_error y | some n ↦ (ok tt, set_len n y) ]

-- `fmc_fview_init` and the test that follows it.
pub map_page : ℕ → M (Unit {0})
map_page page = do
  fine ← gets λ y. y.os.fview_init page
  require fine os_error
  address ← gets λ y. y.os.fview_data page
  require address mmap_failed
  modify (set_page page true)

pub allocate_page : ℕ → M (Unit {0})
unfolding grow map_page
allocate_page page y =
    if y.pages page then (ok tt, y) else (do grow (page * page_size + page_size); map_page page) y

pub ytp_yamal_allocate_page : ℕ → M (Unit {0})
unfolding allocate_page
ytp_yamal_allocate_page page = do
  require (ltb page page_count_max) page_out_of_range
  allocate_page page

-- The lock, `body`, and the unlock, which happens also when `body` fails.
pub locked : M (Unit {0}) → M (Unit {0})
locked body y =
    if y.os.lock
    then (let (r, y') = body y in if y'.os.unlock then (r, y') else (err mutex_unlock, y'))
    else (err mutex_lock, y)

-- `pages_` has YTP_MMLIST_PAGE_COUNT_MAX entries, and the code does not check the index.
unfoldable pub get_mapped_memory : ℕ → M ℕ
unfolding allocate_page locked
get_mapped_memory offs y =
    if leb page_count_max (offs / page_size)
    then fail fault y
    else if y.pages (offs / page_size)
    then (ok offs, y)
    else (do locked (allocate_page (offs / page_size)); pure offs) y

unfoldable pub ytp_yamal_header : M ℕ
unfolding get_mapped_memory
ytp_yamal_header = get_mapped_memory 0

unfoldable pub mmnode_from_offset : ℕ → M ℕ
unfolding get_mapped_memory
mmnode_from_offset offs = get_mapped_memory offs

pub ytp_yamal_reserved_size : M ℕ
unfolding ytp_yamal_header
ytp_yamal_reserved_size = do _ ← ytp_yamal_header; gets λ y. y.reserved

-- `for (; !fmc_fview_data(&pages_[page_idx]); page_idx--) ;` from a page down. Below page 0 the
-- index wraps and leaves `pages_`.
pub top_mapped : ℕ → M ℕ
top_mapped zero y = if y.pages 0 then (ok 0, y) else (err fault, y)
top_mapped (suc p) y =
    let rest = top_mapped p y in if y.pages (suc p) then (ok (suc p), y) else rest

-- `for (++page_idx; page_idx <= pred_page_idx; page_idx++)`, which has `n` rounds left.
pub allocate_upto : ℕ → ℕ → M (Unit {0})
unfolding allocate_page
allocate_upto zero page = pure tt
allocate_upto (suc n) page = do allocate_page page; allocate_upto n (page + 1)

pub mmlist_pages_allocation : M (Unit {0})
unfolding ytp_yamal_header top_mapped allocate_upto locked
mmlist_pages_allocation = do
  _ ← ytp_yamal_header
  pred ← gets λ y. ((y.reserved + prealloc_size) % word) / page_size
  require (ltb pred page_count_max) fault
  mapped ← gets λ y. y.pages pred
  if mapped
      then pure tt
      else locked (do top ← top_mapped pred; allocate_upto (pred - top) (top + 1))

-- `for (page = last; page-- > first;)`: the pages below `last`, down to `first`.
pub ytp_yamal_allocate_pages : ℕ → ℕ → M (Unit {0})
unfolding ytp_yamal_allocate_page
ytp_yamal_allocate_pages first zero y = (ok tt, y)
ytp_yamal_allocate_pages first (suc last) y =
    let rest = ytp_yamal_allocate_pages first last in
    if leb first last then (do ytp_yamal_allocate_page last; rest) y else (ok tt, y)

pub ytp_yamal_allocate : ℕ → M (Unit {0})
unfolding ytp_yamal_allocate_pages
ytp_yamal_allocate sz = ytp_yamal_allocate_pages 0 (((sz + page_size - 1) % word) / page_size)

pub ytp_yamal_used_size : M ℕ
unfolding ytp_yamal_reserved_size
ytp_yamal_used_size = do
  reserved ← ytp_yamal_reserved_size
  pure ((((reserved + page_size - 1) % word) / page_size) * page_size % word)
