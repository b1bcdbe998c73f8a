-- ===== src/Yamal/Publish.antt =====
-- Reserve, fill and commit together, which is how every message is written: the invariant of a file
-- with a list, and what one message does to it. Here reserved nodes meet committed ones.
use yamal.Base.{
  Disjoint, List, [], ap, arith, last_of, length, subst, sym, ℕ, ◌++◌, ◌+◌, ◌<◌, ◌∙◌, ◌∷◌, ◌≡◌, ◌≤◌,
}
use yamal.Yamal.Chain.{
  Counts-same, IsList, Nexts-Behind, Nexts-drop, Nexts-grown, Nexts-same, Prevs-same,
}
use yamal.Yamal.Commit.{ytp_yamal_commit}
use yamal.Yamal.Commit.Append.{IsKept, IsReserved}
use yamal.Yamal.Commit.Laws.{IsOpen, ytp_yamal_commit-Appends}
use yamal.Yamal.Iter.{ytp_yamal_read}
use yamal.Yamal.Iter.Laws.{ytp_yamal_read_lem}
use yamal.Yamal.Reserve.Bounds.{IsFresh}
use yamal.Yamal.State.{Node, Yamal, hdr_size, head, node_header, ok}

abbrev pub Below : ℕ → List ℕ → Type 0
Below n [] = Unit {0}
Below n (o ∷ os) = (o < n) × Below n os

Below-mono : (m n : ℕ) (os : List ℕ) → m ≤ n → Below m os → Below n os
Below-mono m n [] h b = tt
Below-mono m n (o ∷ os) h b = (omega arith, Below-mono m n os h b.1)

Below-append : (n : ℕ) (os ps : List ℕ) → Below n os → Below n ps → Below n (os ++ ps)
Below-append n [] ps b c = c
Below-append n (o ∷ os) ps b c = (b.0, Below-append n os ps b.1 c)

Below-Disjoint : (n : ℕ) (os : List ℕ) → Below n os → (m : ℕ) → n ≤ m → Disjoint os (m ∷ [])
Below-Disjoint n [] b m h = tt
Below-Disjoint n (o ∷ os) b m h = ((omega arith, tt), Below-Disjoint n os b.1 m h)

-- The last node of a list is one of its nodes, or the head.
pub last_of-Below : (n a : ℕ) (os : List ℕ) → a < n → Below n os → last_of a os < n
last_of-Below n a [] h b = h
last_of-Below n a (o ∷ os) h b = last_of-Below n o os b.0 b.1

-- The list `l` is open and holds `os`; all its nodes are reserved space, and what is not reserved
-- yet holds no links.
pub record IsFile (y : Yamal) (l : ℕ) (os : List ℕ) : Type 0 where
  pub open' : IsOpen y l os
  pub below : Below y.reserved os
  pub behind : hdr_size ≤ y.reserved
  pub clean : (o : ℕ) → y.reserved ≤ o → (y.node o).next ≡ 0

-- The payload is filled in.
abbrev pub with_bytes : (ℕ → ℕ) → Yamal → Yamal
with_bytes b y = record y { file = record y.file { byte = b } }

module _ {y y1 : Yamal} {l : ℕ} {os : List ℕ} {sz offs p : ℕ} (b : ℕ → ℕ) (v : IsFile y l os)
    (f : IsFresh sz y y1 offs p) where
  abbrev filled : Yamal
  filled = with_bytes b y1

  fresh_apart : Disjoint (head l ∷ os) (offs ∷ [])
  fresh_apart = (
    (omega (arith, f.from, v.behind, v.open'.list.index), tt),
    Below-Disjoint y.reserved os v.below offs f.from,
  )

  filled-IsList : IsList filled l os 0
  filled-IsList =
      let w = v.open'.list in
      record {
        header = f.pages 0 w.header;
        index = w.index;
        nexts =
            Nexts-grown y.pages y1.pages y1.node (head l) os 0 f.pages
              (Nexts-same y.pages y.node y1.node f.next (head l) os 0 w.nexts);
        prevs =
            Prevs-same y.node y1.node (offs ∷ []) (head l) os
              (λ q c a. ap (λ (k : Node). k.prev) (f.nodes q a.0))
              (Nexts-Behind y.pages y.node (head l) os 0 w.nexts) fresh_apart.1 w.prevs;
        counts =
            Counts-same y.node y1.node (offs ∷ []) (head l) os
              (λ q a. ap (λ (k : Node). k.seqno) (f.nodes q a.0)) fresh_apart w.counts;
      }

  filled-IsOpen : IsOpen filled l os
  filled-IsOpen =
      let (bs, rest, e, hint) = v.open'.hint in
      record {
        list = filled-IsList;
        hint = (bs, rest, e, ap (λ (k : Node). k.prev) (f.nodes (head l) fresh_apart.0.0) ∙ hint);
      }

  filled-IsReserved : IsReserved filled l os offs []
  filled-IsReserved = record {
    behind = omega (arith, f.from, v.behind);
    mapped = f.mapped;
    own = f.own;
    nexts = f.next offs ∙ v.clean offs f.from;
    prevs = tt;
    distinct = (tt, tt);
    disjoint = fresh_apart;
  }

  -- What the commit of the filled node leaves: the invariant holds with the node at the end, and the
  -- message can be read at the iterator that was returned.
  pub record Published (fuel : ℕ) : Type 0 where
    pub after : Yamal
    pub returns : ytp_yamal_commit fuel p l filled ≡ (ok (last_of (head l) os + 8), after)
    pub file : IsFile after l (os ++ offs ∷ [])
    pub bytes : after.byte ≡ b
    pub reads :
        ytp_yamal_read (last_of (head l) os + 8) after
        ≡ (ok (record { seqno = (after.node offs).seqno; size = sz; at = p }), after)
    pub kept : IsKept (head l) (last_of (head l) os) (offs ∷ []) filled after

  pub published : (fuel : ℕ) → length os < fuel → Published fuel
  published fuel h =
      let (y3, e, w, k) =
        ytp_yamal_commit-Appends fuel filled l os offs [] filled-IsOpen filled-IsReserved h
          (omega arith) in
      let here = Nexts-drop y3.pages y3.node (head l) os (offs ∷ []) 0 w.list.nexts in
      let last_below =
        last_of-Below y.reserved (head l) os (omega (arith, v.behind, v.open'.list.index))
          v.below in
      let grown : y.reserved ≤ y1.reserved = omega (arith, f.from, f.upto, f.at) in
      record {
        after = y3;
        returns =
            subst (λ q. ytp_yamal_commit fuel q l filled ≡ (ok (last_of (head l) os + 8), y3))
              (sym f.at) e;
        file = record {
          open' = w;
          below = rw k.reserved (
              Below-append y1.reserved os (offs ∷ [])
                (Below-mono y.reserved y1.reserved os grown v.below)
                (omega (arith, f.upto, f.at), tt));
          behind = omega (arith, v.behind, grown, k.reserved);
          clean = λ o c.
              k.next o (omega (arith, last_below, grown, k.reserved, c))
              ∙ f.next o
              ∙ v.clean o (omega (arith, grown, k.reserved, c));
        };
        bytes = k.byte;
        reads =
            ytp_yamal_read_lem y3 (last_of (head l) os) here.0 here.2
            ∙ ap
                (λ (s : ℕ). (
                  ok (record { seqno = (y3.node offs).seqno; size = s; at = offs + node_header }),
                  y3,
                ))
                (k.size offs ∙ f.size)
            ∙ ap (λ (a : ℕ). (ok (record { seqno = (y3.node offs).seqno; size = sz; at = a }), y3))
                (sym f.at);
        kept = k;
      }
