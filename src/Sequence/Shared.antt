-- ===== src/Sequence/Shared.antt =====
-- src/ytp/sequence.cpp: a sequence that several owners share, by a count of references.
-- Whether the object still stands; the file and the sequence go with it.
use yamal.Base.{Bool, false, if◌then◌else◌, true, ℕ, ◌%◌, ◌+◌, ◌-◌, ◌==◌}
use yamal.Yamal.State.{word}

pub record SharedSequence : Type 0 where
  pub ref_counter : ℕ
  pub stands : Bool

abbrev pub shared_new : SharedSequence
shared_new = record { ref_counter = 1; stands = true }

pub ytp_sequence_shared_inc : SharedSequence → SharedSequence
ytp_sequence_shared_inc s = record s { ref_counter = (s.ref_counter + 1) % word }

pub ytp_sequence_shared_dec : SharedSequence → SharedSequence
ytp_sequence_shared_dec s =
    let n = (s.ref_counter + word - 1) % word in
    if n == 0 then record { ref_counter = n; stands = false } else record s { ref_counter = n }
