-- ===== src/Timeline/Register.antt =====
-- src/ytp/timeline.cpp: the registration of callbacks, and what an announced channel is given.
use yamal.Base.{
  Bool, List, [], arith, false, get_elem?, if◌then◌else◌, leb, length, none, not, refl, set, some,
  subst, suc, true, zero, ℕ, ◌&&◌, ◌++◌, ◌-◌, ◌==◌, ◌↔◌, ◌∷◌, ◌≡◌,
}
use yamal.Control.Registry.{Name, name_test, offset_test}
use yamal.Control.Table.{find}
use yamal.Cursor.Register.Laws.{keys}
use yamal.LazyRemVector.{
  EqTest, Item, LazyRemVector, clear, emplace_back, erase_if, new, push_unique,
}
use yamal.Message.Announcement.{ytp_announcement_begin}
use yamal.Message.Fields.{stream_list_data}
use yamal.Timeline.Prefix.{announced_keys, prfx_for_each}
use yamal.Yamal.Iter.{ytp_yamal_begin}
use yamal.Yamal.State.{M, pure, ◌>>=◌}

-- A callback with its closure, by numbers; the other callbacks are of the same form.
pub record Client : Type 0 where
  pub function : ℕ
  pub closure : ℕ

abbrev pub client_beq : Client → Client → Bool
client_beq a b = a.function == b.function && a.closure == b.closure

pub client_beq_iff : (a b : Client) → (client_beq a b ≡ true) ↔ (a ≡ b)
client_beq_iff a b = (
  λ h.
      let f : a.function ≡ b.function = ground (arith, h) in
      let c : a.closure ≡ b.closure = ground (arith, h) in rw (f, c) refl,
  λ e. subst (λ x. client_beq a x ≡ true) e (ground arith),
)

instance abbrev pub client_test : EqTest Client
client_test = record { beq = client_beq; beq_iff = client_beq_iff }

abbrev pub Clients : Type 0
Clients = LazyRemVector Client

-- `struct ytp_timeline`, without its control.
pub record Timeline : Type 0 where
  pub it_data : ℕ
  pub it_ann : ℕ
  pub ann_processed : ℕ
  pub cb_peer : Clients
  pub cb_ch : Clients
  pub cb_idle : Clients
  pub prfx_cb : List (Name × Clients)
  pub idx_cb : List (ℕ × Clients)
  pub ch_announced : List Bool
  pub peer_announced : List Bool

-- A write through `m[k]`, which is made if it is missing, and one through `find`.
module _ {K : Type 0} ⦃e : EqTest K⦄ where
  unfoldable pub at_key : (Clients → Clients) → K → List (K × Clients) → List (K × Clients)
  at_key f k [] = (k, f new) ∷ []
  at_key f k ((j, v) ∷ m) = if e.beq j k then (j, f v) ∷ m else (j, v) ∷ at_key f k m

  unfoldable pub at_present : (Clients → Clients) → K → List (K × Clients) → List (K × Clients)
  at_present f k [] = []
  at_present f k ((j, v) ∷ m) = if e.beq j k then (j, f v) ∷ m else (j, v) ∷ at_present f k m

abbrev pub without : Client → Clients → Clients
without c v = erase_if (λ x. client_beq c x) v

abbrev pub with_client : Client → Clients → Clients
with_client c v = push_unique ⦃e = client_test⦄ c v

-- The channels of a prefix, each with its callbacks.
unfoldable pub for_channels :
    (Clients → Clients) → List (Name × ℕ) → List (ℕ × Clients) → List (ℕ × Clients)
unfolding at_key
for_channels f [] idx = idx
for_channels f ((n, k) ∷ m) idx = for_channels f m (at_key ⦃e = offset_test⦄ f k idx)

unfoldable pub ytp_timeline_prfx_cb : Name → Client → List (Name × ℕ) → Timeline → Timeline
unfolding at_key for_channels prfx_for_each
ytp_timeline_prfx_cb p c names t = record t {
  prfx_cb = at_key ⦃e = name_test⦄ (emplace_back c) p t.prfx_cb;
  idx_cb = for_channels (with_client c) (prfx_for_each p names) t.idx_cb;
}

unfoldable pub ytp_timeline_prfx_cb_rm : Name → Client → List (Name × ℕ) → Timeline → Timeline
unfolding at_present for_channels prfx_for_each
ytp_timeline_prfx_cb_rm p c names t = record t {
  prfx_cb = at_present ⦃e = name_test⦄ (without c) p t.prfx_cb;
  idx_cb = for_channels (without c) (prfx_for_each p names) t.idx_cb;
}

unfoldable pub ytp_timeline_indx_cb : ℕ → Client → Timeline → Timeline
unfolding at_key
ytp_timeline_indx_cb channel c t = record t {
  idx_cb = at_key ⦃e = offset_test⦄ (with_client c) channel t.idx_cb;
}

unfoldable pub ytp_timeline_indx_cb_rm : ℕ → Client → Timeline → Timeline
unfolding at_present
ytp_timeline_indx_cb_rm channel c t = record t {
  idx_cb = at_present ⦃e = offset_test⦄ (without c) channel t.idx_cb;
}

-- What a channel is given when it is announced: the callbacks of every key that is looked up.
abbrev pub push_all : List (Item Client) → Clients → Clients
push_all [] v = v
push_all (i ∷ is) v = push_all is (with_client i.value v)

abbrev pub push_key : List (Name × Clients) → Name → Clients → Clients
push_key prfx key v = elim (find ⦃e = name_test⦄ key prfx) [
  | none ↦ v
  | some w ↦ push_all w.items v
]

abbrev pub push_keys : List (Name × Clients) → List Name → Clients → Clients
push_keys prfx [] v = v
push_keys prfx (key ∷ keys) v = push_keys prfx keys (push_key prfx key v)

unfoldable pub channel_announcement : ℕ → Name → Timeline → Timeline
unfolding at_key announced_keys find
channel_announcement channel name t = record t {
  idx_cb =
      at_key ⦃e = offset_test⦄ (push_keys t.prfx_cb (announced_keys (suc (length name)) name))
        channel t.idx_cb;
}

-- The callbacks on channels, on peers and on idle polls.
pub ytp_timeline_ch_cb : Client → Timeline → Timeline
ytp_timeline_ch_cb c t = record t { cb_ch = with_client c t.cb_ch }

pub ytp_timeline_ch_cb_rm : Client → Timeline → Timeline
ytp_timeline_ch_cb_rm c t = record t { cb_ch = without c t.cb_ch }

pub ytp_timeline_peer_cb : Client → Timeline → Timeline
ytp_timeline_peer_cb c t = record t { cb_peer = with_client c t.cb_peer }

pub ytp_timeline_peer_cb_rm : Client → Timeline → Timeline
ytp_timeline_peer_cb_rm c t = record t { cb_peer = without c t.cb_peer }

pub ytp_timeline_idle_cb : Client → Timeline → Timeline
ytp_timeline_idle_cb c t = record t { cb_idle = with_client c t.cb_idle }

pub ytp_timeline_idle_cb_rm : Client → Timeline → Timeline
ytp_timeline_idle_cb_rm c t = record t { cb_idle = without c t.cb_idle }

pub ytp_timeline_iter_get : Timeline → ℕ
ytp_timeline_iter_get t = t.it_data

pub ytp_timeline_iter_set : ℕ → Timeline → Timeline
ytp_timeline_iter_set it t = record t { it_data = it }

-- `channel_announcement_wrapper` is the function with the number `wrapper`.
pub ytp_timeline_cb_rm : ℕ → Timeline → Timeline
ytp_timeline_cb_rm wrapper t = record t {
  cb_ch = erase_if (λ x. not (x.function == wrapper)) t.cb_ch;
  idx_cb = [];
  prfx_cb = [];
  cb_peer = clear t.cb_peer;
  cb_idle = clear t.cb_idle;
}

-- The callbacks of one vector, or of a table, behind those of another.
abbrev append_items : List (Item Client) → Clients → Clients
append_items [] v = v
append_items (i ∷ is) v = append_items is (emplace_back i.value v)

module _ {K : Type 0} ⦃e : EqTest K⦄ where
  unfoldable pub append_table : List (K × Clients) → List (K × Clients) → List (K × Clients)
  unfolding at_key
  append_table [] m = m
  append_table ((k, v) ∷ src) m = append_table src (at_key (append_items v.items) k m)

abbrev but : ℕ → List (Item Client) → List (Item Client)
but wrapper [] = []
but wrapper (i ∷ is) = if i.value.function == wrapper then but wrapper is else i ∷ but wrapper is

-- The timelines that it leaves, the destination first.
pub ytp_timeline_consume : ℕ → Timeline → Timeline → Bool × Timeline × Timeline
unfolding append_table ytp_timeline_cb_rm
ytp_timeline_consume wrapper dest src =
    if not (dest.it_data == src.it_data && dest.it_ann == src.it_ann) then (false, dest, src) else (
      true,
      record dest {
        idx_cb = append_table ⦃e = offset_test⦄ src.idx_cb dest.idx_cb;
        prfx_cb = append_table ⦃e = name_test⦄ src.prfx_cb dest.prfx_cb;
        cb_ch = append_items (but wrapper src.cb_ch.items) dest.cb_ch;
        cb_peer = append_items src.cb_peer.items dest.cb_peer;
        cb_idle = append_items src.cb_idle.items dest.cb_idle;
      },
      ytp_timeline_cb_rm wrapper src,
    )

-- `wrapper` is channel_announcement_wrapper with the timeline itself.
pub ytp_timeline_init : Client → M Timeline
ytp_timeline_init wrapper = do
  it_data ← ytp_yamal_begin stream_list_data
  it_ann ← ytp_announcement_begin
  pure (
      ytp_timeline_ch_cb wrapper (record {
        it_data = it_data;
        it_ann = it_ann;
        ann_processed = 0;
        cb_peer = new;
        cb_ch = new;
        cb_idle = new;
        prfx_cb = [];
        idx_cb = [];
        ch_announced = [];
        peer_announced = [];
      }))

-- Whether a number was announced before, with the mark for the next time.
abbrev pub falses : ℕ → List Bool
falses zero = []
falses (suc n) = false ∷ falses n

abbrev pub flag_at : ℕ → List Bool → Bool
flag_at id v = elim (get_elem? v id) [ none ↦ false | some b ↦ b ]

unfoldable pub was_announced : ℕ → List Bool → Bool × List Bool
was_announced id v =
    let grown = if leb (length v) id then v ++ falses (suc id - length v) else v in
    (flag_at id grown, set grown id true)
