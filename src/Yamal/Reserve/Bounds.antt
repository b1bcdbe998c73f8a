-- ===== src/Yamal/Reserve/Bounds.antt =====
-- The space that ytp_yamal_reserve hands out, and the rounds of its loop.
use yamal.Base.{
  Bool-cases, ap, arith, inl, inr, ltb, refl, subst, suc, sym, true, zero, ℕ, ◌%◌, ◌*◌, ◌+◌, ◌/◌,
  ◌<◌, ◌∙◌, ◌≡◌, ◌≢◌, ◌≤◌, ◌⊎◌,
}
use yamal.Yamal.Pages.Laws.{
  IsGrown, IsMapped, IsReliable, get_mapped_memory_total, mmnode_from_offset_lem,
  ytp_yamal_header_mapped,
}
use yamal.Yamal.Reserve.{
  fmc_wordceil, init_node_at, node_or_fail, reserve_loop, set_reserved, ytp_yamal_reserve,
}
use yamal.Yamal.State.{Node, Yamal, hang, node_header, ok, page_count_max, page_size, word}

-- A size of at most 2 ^ 64 - 8 is rounded up to a multiple of 8 that is less than 8 larger.
pub fmc_wordceil_bounds :
    (s : ℕ)
    → s + 8 ≤ word
    → (s ≤ fmc_wordceil s) × (fmc_wordceil s < s + 8) × (fmc_wordceil s % 8 ≡ 0)
unfolding fmc_wordceil
fmc_wordceil_bounds s h = ground arith

-- The node starts at or behind the old size, ends where the new size is, and lies in one page.
pub record Taken (node_size limit : ℕ) (y y' : Yamal) (offs : ℕ) : Type 0 where
  pub from : y.reserved ≤ offs
  pub upto : y'.reserved ≡ offs + node_size
  pub below : y'.reserved ≤ limit
  pub page : offs % page_size + node_size ≤ page_size
  pub only : y' ≡ set_reserved y'.reserved y

module _ (fuel n room : ℕ) (y : Yamal) (p : n + room ≡ page_size)
    (r : y.reserved % page_size ≤ suc fuel * room) (w : y.reserved + suc fuel * n < word)
    (more : ltb page_size ((y.reserved % page_size + n) % word) ≡ true) where
  crossed : page_size < y.reserved % page_size + n
  crossed = ground arith

  again : ((y.reserved + n) % word) % page_size ≤ fuel * room
  again = omega (arith, crossed)

  rounds : 0 < fuel
  rounds = ground (arith, crossed)

-- When a node leaves room in a page and the rounds times that room reach the offset in the page,
-- and the size does not wrap, the loop of ytp_yamal_reserve ends with an offset at or behind the
-- old size whose node lies in one page and ends at the new size, within the rounds' bound; only
-- the size changes.
pub reserve_loop_total :
    (fuel node_size room : ℕ) (y : Yamal)
    → node_size + room ≡ page_size
    → y.reserved % page_size ≤ fuel * room
    → 0 < fuel
    → y.reserved + fuel * node_size < word
    → (offs : ℕ) × (y' : Yamal) × (reserve_loop fuel node_size y ≡ (ok offs, y'))
      × Taken node_size (y.reserved + fuel * node_size) y y' offs
unfolding reserve_loop
reserve_loop_total zero n room y p r z w = absurd (omega arith)
reserve_loop_total (suc fuel) n room y p r z w =
    let next = set_reserved ((y.reserved + n) % word) y in
    elim (Bool-cases (ltb page_size ((y.reserved % page_size + n) % word))) [
      | inl more ↦
          let (offs, y', e, t) =
            reserve_loop_total fuel n room next p (again fuel n room y p r w more)
              (rounds fuel n room y p r w more) (omega arith) in
          (
            offs,
            y',
            rw more e,
            record {
              from = omega (arith, t.from);
              upto = t.upto;
              below = omega (arith, t.below);
              page = t.page;
              only = t.only;
            },
          )
      | inr fits ↦ (
        y.reserved,
        next,
        rw fits refl,
        record {
          from = omega arith;
          upto = omega arith;
          below = omega arith;
          page = ground arith;
          only = refl;
        },
      )
    ]

-- What a successful call leaves: `p` points to a payload of `sz` zero bytes behind a node header, in
-- space that was not reserved before and is now, and inside one page. All else is as it was.
pub record IsFresh (sz : ℕ) (y y' : Yamal) (offs p : ℕ) : Type 0 where
  pub at : p ≡ offs + node_header
  pub from : y.reserved ≤ offs
  pub upto : p + sz ≤ y'.reserved
  pub page : offs % page_size + node_header + sz ≤ page_size
  pub mapped : IsMapped y'.pages offs
  pub size : (y'.node offs).size ≡ sz
  pub own : (y'.node offs).prev ≡ offs
  pub next : (q : ℕ) → (y'.node q).next ≡ (y.node q).next
  pub nodes : (q : ℕ) → q ≢ offs → y'.node q ≡ y.node q
  pub cleared : (a : ℕ) → p ≤ a → a < p + sz → y'.byte a ≡ 0
  pub bytes : (a : ℕ) → (a < p) ⊎ (p + sz ≤ a) → y'.byte a ≡ y.byte a
  pub os : y'.os ≡ y.os
  pub readonly : y'.readonly ≡ y.readonly
  pub magic : y'.magic ≡ y.magic
  pub closable : y'.closable ≡ y.closable
  pub pages : (q : ℕ) → y.pages q ≡ true → y'.pages q ≡ true

init_node_at-IsFresh :
    (sz n limit offs : ℕ) (y y1 y2 : Yamal)
    → Taken n limit y y1 offs
    → node_header + sz ≤ n
    → IsGrown y1 y2
    → IsMapped y2.pages offs
    → (y' : Yamal) × (init_node_at offs sz y2 ≡ (ok (offs + node_header), y'))
      × IsFresh sz y y' offs (offs + node_header)
unfolding init_node_at
init_node_at-IsFresh sz n limit offs y y1 y2 t s g m =
    let node2 : (q : ℕ) → y2.node q ≡ y.node q =
      λ q. ap (λ (f : ℕ → Node). f q) (g.node ∙ ap (λ (z : Yamal). z.node) t.only) in
    let byte2 : (a : ℕ) → y2.byte a ≡ y.byte a =
      λ a. ap (λ (f : ℕ → ℕ). f a) (g.byte ∙ ap (λ (z : Yamal). z.byte) t.only) in
    (
      (init_node_at offs sz y2).1,
      refl,
      record {
        at = refl;
        from = t.from;
        upto = omega (arith, t, g.reserved);
        page = omega (arith, t.page);
        mapped = m;
        size = ground arith;
        own = ground arith;
        next = λ q. ground (arith, ap (λ (k : Node). k.next) (node2 q));
        nodes = λ q h. ground (arith, node2 q);
        cleared = λ a h k. ground arith;
        bytes = λ a h. ground (arith, byte2 a);
        os = g.os ∙ ap (λ (z : Yamal). z.os) t.only;
        readonly = g.readonly ∙ ap (λ (z : Yamal). z.readonly) t.only;
        magic = g.magic ∙ ap (λ (z : Yamal). z.magic) t.only;
        closable = g.closable ∙ ap (λ (z : Yamal). z.closable) t.only;
        pages = λ q h. g.pages q (ap (λ (z : Yamal). z.pages q) t.only ∙ h);
      },
    )

set_reserved-IsReliable : (n : ℕ) (y : Yamal) → IsReliable y → IsReliable (set_reserved n y)
set_reserved-IsReliable n y r = record {
  writable = r.writable;
  grows = r.grows;
  maps = r.maps;
  addresses = r.addresses;
  locks = r.locks;
  unlocks = r.unlocks;
}

inside :
    (n limit offs : ℕ) (y y1 : Yamal)
    → Taken n limit y y1 offs
    → 0 < n
    → limit ≤ page_size * page_count_max
    → offs / page_size < page_count_max
inside n limit offs y y1 t b l = omega arith

most_lem : (fuel n room : ℕ) → n + room ≡ page_size → fuel * n ≤ fuel * page_size
most_lem fuel n room h = grind arith

-- A reliable system, a size that leaves `room` in a page, enough rounds for that room, and a file
-- below its largest size.
pub record HasRoom (fuel sz : ℕ) (y : Yamal) : Type 0 where
  pub reliable : IsReliable y
  pub header : y.pages 0 ≡ true
  pub positive : 0 < sz
  pub fits : node_header + sz ≤ page_size
  pub room : ℕ
  pub total : fmc_wordceil (node_header + sz) + room ≡ page_size
  pub enough : y.reserved % page_size ≤ fuel * room
  pub rounds : 0 < fuel
  pub limit : y.reserved + fuel * page_size ≤ page_size * page_count_max

-- With a reliable system, room in the file and enough rounds for the room a node leaves in a page,
-- ytp_yamal_reserve ends without an error and hands out a zeroed payload of the asked size behind
-- a node header, not reserved before and reserved after, inside one mapped page; no other node and
-- no other byte changes.
pub ytp_yamal_reserve-IsFresh :
    (fuel sz : ℕ) (y : Yamal)
    → HasRoom fuel sz y
    → (offs : ℕ) × (p : ℕ) × (y' : Yamal) × (ytp_yamal_reserve fuel sz y ≡ (ok p, y'))
      × IsFresh sz y y' offs p
unfolding ytp_yamal_reserve node_or_fail
ytp_yamal_reserve-IsFresh fuel sz y h =
    let n = fmc_wordceil (node_header + sz) in
    let most : fuel * n ≤ fuel * page_size = most_lem fuel n h.room h.total in
    let big : node_header + sz ≤ n =
      (fmc_wordceil_bounds (node_header + sz) (omega (arith, h.fits))).0 in
    let (offs, y1, e1, t) =
      reserve_loop_total fuel n h.room y h.total h.enough h.rounds (omega (arith, most, h.limit)) in
    let rel1 = subst IsReliable (sym t.only) (set_reserved-IsReliable y1.reserved y h.reliable) in
    let (y2, e2, g, m) =
      get_mapped_memory_total offs y1 rel1 (
        inside n (y.reserved + fuel * n) offs y y1 t (omega arith)
          (omega (arith, most, h.limit))) in
    let (y', e3, fresh) =
      init_node_at-IsFresh sz n (y.reserved + fuel * n) offs y y1 y2 t big g m in
    let whole : (node_header + sz) % word ≡ node_header + sz = omega (arith, h.fits) in
    (
      offs,
      offs + node_header,
      y',
      rw whole (
          ground (
            arith,
            h.reliable.writable,
            h.positive,
            ytp_yamal_header_mapped y h.header,
            e1,
            mmnode_from_offset_lem offs y1 ∙ e2,
            e3,
          )),
      fresh,
    )

-- For a node larger than a page and at most 2 ^ 64 less a page, the loop of ytp_yamal_reserve has
-- not ended after any number of rounds.
pub reserve_loop_endless :
    (fuel node_size : ℕ) (y : Yamal)
    → page_size < node_size
    → node_size + page_size ≤ word
    → (reserve_loop fuel node_size y).0 ≡ hang
unfolding reserve_loop
reserve_loop_endless zero n y h w = refl
reserve_loop_endless (suc fuel) n y h w =
    let more : ltb page_size ((y.reserved % page_size + n) % word) ≡ true = ground arith in
    rw more (reserve_loop_endless fuel n (set_reserved ((y.reserved + n) % word) y) h w)
