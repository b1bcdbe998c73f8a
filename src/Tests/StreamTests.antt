-- ===== src/Tests/StreamTests.antt =====
-- Four lists of a file, of which one is closed already, and their closing.
use yamal.Base.{Disjoint, List, [], arith, inl, inr, length, refl, suc, zero, ℕ, ◌<◌, ◌∷◌, ◌≡◌, ◌≢◌}
use yamal.Streams.Close.{ytp_stream_close, ytp_stream_close-closes}
use yamal.Tests.Files.{file_of}
use yamal.Yamal.Close.Laws.{IsEnded}
use yamal.Yamal.State.{Yamal, head, ok}

abbrev four_lists : ℕ → List ℕ
four_lists zero = 536 ∷ []
four_lists (suc zero) = 576 ∷ []
four_lists (suc (suc n)) = []

abbrev four_ends : ℕ → ℕ
four_ends (suc zero) = head 1
four_ends _ = 0

abbrev four_file : Yamal
four_file =
    file_of
      ((16, record { size = 0; next = 536; prev = 536; seqno = 0 })
        ∷ (48, record { size = 0; next = 576; prev = 48; seqno = 0 })
        ∷ (80, record { size = 0; next = 0; prev = 80; seqno = 0 })
        ∷ (112, record { size = 0; next = 0; prev = 112; seqno = 0 })
        ∷ (536, record { size = 8; next = 0; prev = 16; seqno = 1 })
        ∷ (576, record { size = 8; next = 48; prev = 48; seqno = 1 })
        ∷ [])
      616

four-IsEnded : (l : ℕ) → l < 4 → IsEnded four_file l (four_lists l) (four_ends l)
four-IsEnded zero h = record {
  list = record {
    header = refl;
    index = omega arith;
    nexts = (refl, omega arith, (omega arith, refl), refl);
    prevs = (refl, tt);
    counts = (refl, tt);
  };
  hint = (536 ∷ [], [], refl, refl);
  ended = inl refl;
}
four-IsEnded (suc zero) h = record {
  list = record {
    header = refl;
    index = omega arith;
    nexts = (refl, omega arith, (omega arith, refl), refl);
    prevs = (refl, tt);
    counts = (refl, tt);
  };
  hint = ([], 576 ∷ [], refl, refl);
  ended = inr refl;
}
four-IsEnded (suc (suc zero)) h = record {
  list = record { header = refl; index = omega arith; nexts = refl; prevs = tt; counts = tt };
  hint = ([], [], refl, refl);
  ended = inl refl;
}
four-IsEnded (suc (suc (suc zero))) h = record {
  list = record { header = refl; index = omega arith; nexts = refl; prevs = tt; counts = tt };
  hint = ([], [], refl, refl);
  ended = inl refl;
}
four-IsEnded (suc (suc (suc (suc n)))) h = absurd (omega (arith, h))

four_short : (l : ℕ) → l < 4 → length (four_lists l) < 2
four_short zero h = omega arith
four_short (suc zero) h = omega arith
four_short (suc (suc n)) h = omega arith

four_apart :
    (l m : ℕ) → l < 4 → m < 4 → l ≢ m → Disjoint (head l ∷ four_lists l) (head m ∷ four_lists m)
four_apart zero zero h k d = absurd (d refl)
four_apart zero (suc zero) h k d = omega arith
four_apart zero (suc (suc m)) h k d = omega (arith, k)
four_apart (suc zero) zero h k d = omega arith
four_apart (suc zero) (suc zero) h k d = absurd (d refl)
four_apart (suc zero) (suc (suc m)) h k d = omega (arith, k)
four_apart (suc (suc l)) zero h k d = omega (arith, h)
four_apart (suc (suc l)) (suc zero) h k d = omega (arith, h)
four_apart (suc (suc l)) (suc (suc m)) h k d = omega (arith, d)

ytp_stream_close-closes_example :
    (y' : Yamal) × (ytp_stream_close 2 four_file ≡ (ok tt, y'))
    × ((l : ℕ) → l < 4 → IsEnded y' l (four_lists l) (head l))
ytp_stream_close-closes_example =
    ytp_stream_close-closes four_lists 2 four_short four_apart four_file four_ends
      (record { each = four-IsEnded; writable = refl; mode = refl })
