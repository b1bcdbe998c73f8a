-- ===== src/Yamal/Pages/Laws.antt =====
-- What the mapping of pages does to the file.
use yamal.Base.{
  Bool, Bool-cases, ap, arith, false, inl, inr, refl, some, true, ℕ, ◌*◌, ◌+◌, ◌/◌, ◌<◌, ◌≡◌,
}
use yamal.Yamal.Pages.{
  allocate_page, get_mapped_memory, grow, locked, mmlist_pages_allocation, mmnode_from_offset,
  set_len, set_page, ytp_yamal_header,
}
use yamal.Yamal.State.{
  Yamal, err, hdr_size, mutex_lock, ok, page_count_max, page_size, unexpected_eof,
}

-- The page of an offset is one of `pages_`, and is mapped.
abbrev pub IsMapped : (ℕ → Bool) → ℕ → Type 0
IsMapped pages offs = (offs / page_size < page_count_max) × (pages (offs / page_size) ≡ true)

-- In a mapped page an access changes nothing.
pub get_mapped_memory_mapped :
    (offs : ℕ) (y : Yamal) → IsMapped y.pages offs → get_mapped_memory offs y ≡ (ok offs, y)
unfolding get_mapped_memory
get_mapped_memory_mapped offs y m = ground arith

pub mmnode_from_offset_mapped :
    (offs : ℕ) (y : Yamal) → IsMapped y.pages offs → mmnode_from_offset offs y ≡ (ok offs, y)
unfolding mmnode_from_offset
mmnode_from_offset_mapped offs y m = get_mapped_memory_mapped offs y m

pub mmnode_from_offset_lem :
    (offs : ℕ) (y : Yamal) → mmnode_from_offset offs y ≡ get_mapped_memory offs y
unfolding mmnode_from_offset
mmnode_from_offset_lem offs y = refl

pub ytp_yamal_header_mapped : (y : Yamal) → y.pages 0 ≡ true → ytp_yamal_header y ≡ (ok 0, y)
unfolding ytp_yamal_header
ytp_yamal_header_mapped y m = get_mapped_memory_mapped 0 y (omega arith, m)

-- The operating system gives what a writer asks for.
pub record IsReliable (y : Yamal) : Type 0 where
  pub writable : y.readonly ≡ false
  pub grows : (len size : ℕ) → (n : ℕ) × (y.os.falloc len size ≡ some n)
  pub maps : (p : ℕ) → y.os.fview_init p ≡ true
  pub addresses : (p : ℕ) → y.os.fview_data p ≡ true
  pub locks : y.os.lock ≡ true
  pub unlocks : y.os.unlock ≡ true

-- More pages may be mapped in `y'` than in `y`, and the file may be longer; nothing else differs.
pub record IsGrown (y y' : Yamal) : Type 0 where
  pub os : y'.os ≡ y.os
  pub readonly : y'.readonly ≡ y.readonly
  pub magic : y'.magic ≡ y.magic
  pub reserved : y'.reserved ≡ y.reserved
  pub closable : y'.closable ≡ y.closable
  pub node : y'.node ≡ y.node
  pub byte : y'.byte ≡ y.byte
  pub pages : (p : ℕ) → y.pages p ≡ true → y'.pages p ≡ true

pub IsGrown-refl : (y : Yamal) → IsGrown y y
IsGrown-refl y = record {
  os = refl;
  readonly = refl;
  magic = refl;
  reserved = refl;
  closable = refl;
  node = refl;
  byte = refl;
  pages = λ p h. h;
}

-- A page that is not mapped yet is allocated.
allocate_page_fresh :
    (page : ℕ) (y : Yamal)
    → IsReliable y
    → y.pages page ≡ false
    → (y' : Yamal) × (allocate_page page y ≡ (ok tt, y')) × IsGrown y y' × (y'.pages page ≡ true)
unfolding allocate_page
allocate_page_fresh page y r h =
    let (n, e) = r.grows y.len (page * page_size + page_size) in
    (
      set_page page true (set_len n y),
      ground (arith, r.maps page, r.addresses page),
      record {
        os = refl;
        readonly = refl;
        magic = refl;
        reserved = refl;
        closable = refl;
        node = refl;
        byte = refl;
        pages = λ p q. ground arith;
      },
      ground arith,
    )

-- With a reliable system, get_mapped_memory reaches every offset inside the table of pages, maps
-- its page, unmaps none, and changes nothing else but the length of the file.
pub get_mapped_memory_total :
    (offs : ℕ) (y : Yamal)
    → IsReliable y
    → offs / page_size < page_count_max
    → (y' : Yamal) × (get_mapped_memory offs y ≡ (ok offs, y'))
      × IsGrown y y'
      × IsMapped y'.pages offs
unfolding get_mapped_memory
get_mapped_memory_total offs y r b = elim (Bool-cases (y.pages (offs / page_size))) [
  | inl m ↦ (y, ground arith, IsGrown-refl y, (b, m))
  | inr m ↦
      let (y', e, g, m') = allocate_page_fresh (offs / page_size) y r m in
      (y', ground (arith, r.locks, r.unlocks, ap (λ o. o.unlock) g.os), g, (b, m'))
]

-- A reader whose mutex can be locked and unlocked, and whose file is too short for a page inside
-- the table that is not mapped, is told so by get_mapped_memory, and nothing changes.
pub get_mapped_memory_eof :
    (offs : ℕ) (y : Yamal)
    → y.readonly ≡ true
    → offs / page_size < page_count_max
    → y.pages (offs / page_size) ≡ false
    → y.len < offs / page_size * page_size + page_size
    → y.os.lock ≡ true
    → y.os.unlock ≡ true
    → get_mapped_memory offs y ≡ (err unexpected_eof, y)
unfolding get_mapped_memory allocate_page locked grow
get_mapped_memory_eof offs y r b m s l u = ground arith

-- When the mutex cannot be locked a page that is not mapped is not reached.
pub get_mapped_memory_unlocked :
    (offs : ℕ) (y : Yamal)
    → offs / page_size < page_count_max
    → y.pages (offs / page_size) ≡ false
    → y.os.lock ≡ false
    → get_mapped_memory offs y ≡ (err mutex_lock, y)
unfolding get_mapped_memory locked
get_mapped_memory_unlocked offs y b m l = ground arith

-- While the file is small the page that is mapped ahead is the first one.
pub mmlist_pages_allocation_none :
    (y : Yamal) → y.pages 0 ≡ true → y.reserved ≡ hdr_size → mmlist_pages_allocation y ≡ (ok tt, y)
unfolding mmlist_pages_allocation
mmlist_pages_allocation_none y m r = rw (ytp_yamal_header_mapped y m, r) (ground (arith, m))

pub ytp_yamal_header_lem : (y : Yamal) → ytp_yamal_header y ≡ get_mapped_memory 0 y
unfolding ytp_yamal_header
ytp_yamal_header_lem y = refl
