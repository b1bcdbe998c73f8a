-- ===== src/Yamal/Init/Laws.antt =====
-- What ytp_yamal_init_3 makes of a new file.
use yamal.Base.{
  Bool, Bool-cases, [], ap, arith, false, inl, inr, refl, suc, true, zero, ℕ, ◌+◌, ◌-◌, ◌<◌, ◌==◌,
  ◌∙◌, ◌≡◌, ◌≢◌, ◌≤◌,
}
use yamal.Yamal.Init.{
  expect_or_init, init_body, init_list, init_lists, magic_number, ytp_yamal_init_3,
}
use yamal.Yamal.Pages.Laws.{
  IsGrown, IsReliable, get_mapped_memory_total, mmlist_pages_allocation_none, ytp_yamal_header_lem,
}
use yamal.Yamal.Publish.{IsFile}
use yamal.Yamal.State.{Node, Yamal, hdr_size, head, lists, ok}

-- The heads of the lists from `lists - n` on have a link back where they had none; all else is as
-- it was.
record Inited (n : ℕ) (y y' : Yamal) : Type 0 where
  back :
      (l : ℕ)
      → lists ≤ l + n
      → l < lists
      → (y.node (head l)).prev ≡ 0
      → (y'.node (head l)).prev ≡ head l
  next : (o : ℕ) → (y'.node o).next ≡ (y.node o).next
  seqno : (o : ℕ) → (y'.node o).seqno ≡ (y.node o).seqno
  prev : (l : ℕ) → l + n < lists → (y'.node (head l)).prev ≡ (y.node (head l)).prev
  reserved : y'.reserved ≡ y.reserved
  closable : y'.closable ≡ y.closable
  magic : y'.magic ≡ y.magic
  readonly : y'.readonly ≡ y.readonly
  pages : y'.pages ≡ y.pages
  os : y'.os ≡ y.os

-- One head.
abbrev one_list : ℕ → Yamal → Yamal
one_list lstidx y = (init_list lstidx y).1

newly_back :
    (n : ℕ) (y : Yamal) {y' : Yamal}
    → suc n ≤ lists
    → Inited n (one_list (lists - suc n) y) y'
    → (l : ℕ) → lists ≤ l + suc n
    → l < lists
    → (y.node (head l)).prev ≡ 0
    → (y'.node (head l)).prev ≡ head l
unfolding expect_or_init
newly_back n y h i l a b c = elim (Bool-cases (l + n == lists - 1)) [
  | inl e ↦
      let at : lists - suc n ≡ l = ground arith in i.prev l (ground arith) ∙ ground (arith, at, c)
  | inr e ↦
      let apart : lists - suc n ≢ l = ground arith in
      i.back l (ground arith) b (ground (arith, apart, c))
]

init_lists_lem :
    (n : ℕ) (y : Yamal) → n ≤ lists → (y' : Yamal) × (init_lists n y ≡ (ok tt, y')) × Inited n y y'
unfolding init_lists
init_lists_lem zero y h = (
  y,
  refl,
  record {
    back = λ l a b c. absurd (omega arith);
    next = λ o. refl;
    seqno = λ o. refl;
    prev = λ l a. refl;
    reserved = refl;
    closable = refl;
    magic = refl;
    readonly = refl;
    pages = refl;
    os = refl;
  },
)
init_lists_lem (suc n) y h =
    let y1 = one_list (lists - suc n) y in
    let (y', e, i) = init_lists_lem n y1 (omega arith) in
    (
      y',
      e,
      record {
        back = λ l a b c. newly_back n y h i l a b c;
        next = λ o. i.next o ∙ ground (arith, expect_or_init);
        seqno = λ o. i.seqno o ∙ ground arith;
        prev = λ l a. i.prev l (omega arith) ∙ ground arith;
        reserved = i.reserved;
        closable = i.closable;
        magic = i.magic;
        readonly = i.readonly;
        pages = i.pages;
        os = i.os;
      },
    )

-- A file of zeros, as the creation of a file leaves it.
pub record IsBlank (y : Yamal) : Type 0 where
  pub magic : y.magic ≡ 0
  pub reserved : y.reserved ≡ 0
  pub closable : y.closable ≡ 0
  pub next : (o : ℕ) → (y.node o).next ≡ 0
  pub prev : (o : ℕ) → (y.node o).prev ≡ 0

-- The fields that are filled in one after the other.
abbrev filled_header : ℕ → Yamal → Yamal
filled_header mode y = record y {
  file = record y.file { magic = magic_number; reserved = hdr_size };
}

-- What the body does once the header is mapped.
init_body_lem :
    (mode : ℕ) (y y' : Yamal)
    → y.readonly ≡ false
    → y.pages 0 ≡ true
    → IsBlank y
    → init_lists lists (filled_header mode y) ≡ (ok tt, y')
    → Inited lists (filled_header mode y) y'
    → init_body false mode y ≡ (ok tt, record y' { file = record y'.file { closable = mode } })
unfolding init_body expect_or_init
init_body_lem mode y y' w m b e i =
    let open_now = record y' { file = record y'.file { closable = mode } } in
    let none_mapped =
      mmlist_pages_allocation_none open_now (ap (λ (f : ℕ → Bool). f 0) i.pages ∙ m) i.reserved in
    let free : y'.closable ≡ 0 = i.closable ∙ b.closable in
    ground (arith, w, b.magic, b.reserved, e, free, none_mapped)

abbrev unmapped : Yamal → Yamal
unmapped y = record y { pages = λ p. false; thread_created = false }

IsGrown-IsBlank : (y y' : Yamal) → IsBlank y → IsGrown y y' → IsBlank y'
IsGrown-IsBlank y y' b g = record {
  magic = g.magic ∙ b.magic;
  reserved = g.reserved ∙ b.reserved;
  closable = g.closable ∙ b.closable;
  next = λ o. ap (λ (n : ℕ → Node). (n o).next) g.node ∙ b.next o;
  prev = λ o. ap (λ (n : ℕ → Node). (n o).prev) g.node ∙ b.prev o;
}

-- For a writer with a reliable system, ytp_yamal_init_3 without a thread opens a file of zeros
-- without an error; each of its 16 lists is then open and empty, with the invariant of a file, and
-- the file has the closable mode that was asked for.
pub ytp_yamal_init_3-IsFile :
    (mode l : ℕ) (y : Yamal)
    → IsReliable y
    → IsBlank y
    → l < lists
    → (y' : Yamal) × (ytp_yamal_init_3 false mode y ≡ (ok tt, y'))
      × IsFile y' l []
      × (y'.closable ≡ mode)
unfolding ytp_yamal_init_3
ytp_yamal_init_3-IsFile mode l y r b h =
    let rel : IsReliable (unmapped y) = record {
      writable = r.writable;
      grows = r.grows;
      maps = r.maps;
      addresses = r.addresses;
      locks = r.locks;
      unlocks = r.unlocks;
    } in
    let blank : IsBlank (unmapped y) = record {
      magic = b.magic;
      reserved = b.reserved;
      closable = b.closable;
      next = b.next;
      prev = b.prev;
    } in
    let (y1, e1, g, m) = get_mapped_memory_total 0 (unmapped y) rel (omega arith) in
    let blank1 = IsGrown-IsBlank (unmapped y) y1 blank g in
    let (y2, e2, i) = init_lists_lem lists (filled_header mode y1) (omega arith) in
    let body = init_body_lem mode y1 y2 (g.readonly ∙ r.writable) m.1 blank1 e2 i in
    (
      record y2 { file = record y2.file { closable = mode } },
      ground (arith, ytp_yamal_header_lem (unmapped y) ∙ e1, body),
      record {
        open' = record {
          list = record {
            header = ap (λ (f : ℕ → Bool). f 0) i.pages ∙ m.1;
            index = h;
            nexts = i.next (head l) ∙ blank1.next (head l);
            prevs = tt;
            counts = tt;
          };
          hint = ([], [], refl, i.back l (omega arith) h (blank1.prev (head l)));
        };
        below = tt;
        behind = omega (arith, i.reserved);
        clean = λ o c. i.next o ∙ blank1.next o;
      },
      refl,
    )
