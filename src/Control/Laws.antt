-- ===== src/Control/Laws.antt =====
-- The numbers that declarations return.
use yamal.Base.{
  List, Option, Option-cases, ap, arith, get_elem?, inl, inr, length, refl, some, subst, true, ℕ,
  ◌+◌, ◌<◌, ◌∙◌, ◌≡◌, ◌≢◌,
}
use yamal.Control.Answers.{
  Answer, IsSeeker, Settled, lookup_or_insert-Settled, lookup_or_insert_known,
}
use yamal.Control.Decl.{
  answer, channel_at, channel_handler, is_found, none64, or_none, peer_at, peer_handler,
  ytp_control_ch_decl, ytp_control_ch_name, ytp_control_peer_decl, ytp_control_peer_name,
}
use yamal.Control.Messages.{Control, Handler, lookup_or_insert_ctrl_msg}
use yamal.Control.Numbers.{find-enumerate, get_elem?-bound}
use yamal.Control.Registry.{Name, Registry, channel_off, name_test, peer_off}
use yamal.Control.Seekers.{
  channel_handler-IsSeeker, channel_known, peer_handler-IsSeeker, peer_known,
}
use yamal.Control.Table.{find}
use yamal.Control.Tables.{Fits, IsRegistry, IsTable}
use yamal.Message.Fields.{sub64}
use yamal.Yamal.Commit.{number}
use yamal.Yamal.State.{Result, err, hang, ok, word}

-- The result of a call, taken apart.
answer-ok :
    (r : Result (Unit {0}) × ℕ × Control) (k : ℕ) (c : Control)
    → answer r ≡ (ok k, c)
    → (r.1 ≡ k) × (r.2 ≡ c)
answer-ok (ok u, j, d) k c h = let a : ok j ≡ ok k = ap (λ z. z.0) h in (cc a, ap (λ z. z.1) h)
answer-ok (err e, j, d) k c h =
    let a : ◌≡◌ {A = Result ℕ} (err e) (ok k) = ap (λ z. z.0) h in absurd (cc a)
answer-ok (hang, j, d) k c h =
    let a : ◌≡◌ {A = Result ℕ} hang (ok k) = ap (λ z. z.0) h in absurd (cc a)

sub64_lem : (off k i : ℕ) → k ≡ off + i → off + i < word → sub64 k off ≡ i
sub64_lem off k i q f = omega (arith, q, f)

-- A number of a table names its key.
pub number-name :
    (off k : ℕ) (xs : List Name) (m : List (Name × ℕ)) (name : Name)
    → IsTable ⦃e = name_test⦄ off xs m
    → length xs + off < word
    → find ⦃e = name_test⦄ name m ≡ some k
    → get_elem? xs (sub64 k off) ≡ some name
number-name off k xs m name t f h =
    let (i, q, g) =
      find-enumerate ⦃e = name_test⦄ off name xs k
        (subst (λ l. find ⦃e = name_test⦄ name l ≡ some k) t.numbers h) in
    let b = get_elem?-bound xs i name g in
    let s : sub64 k off ≡ i = sub64_lem off k i q (omega (arith, f, b)) in rw s g

pair_path : {A B : Type 0} {a a' : A} {b b' : B} → a ≡ a' → b ≡ b' → ◌≡◌ {A = A × B} (a, b) (a', b')
pair_path p q = rw (p, q) refl

-- A number other than 2 ^ 64 - 1 counts as found.
pub is_found_lem : (k : ℕ) → k ≢ none64 → is_found k ≡ true
is_found_lem k h = ground (arith, h)

or_none-Answer : (known : Registry → Option ℕ) (c : Registry) → Answer known c (or_none (known c))
or_none-Answer known c = elim (Option-cases (known c)) [
  | inl no_number ↦ rw no_number (inl refl)
  | inr (k, number) ↦ rw number (inr refl)
]

-- What a handler that found something leaves: its number is that of the tables, and to ask again gives
-- it at once.
module _ (h : Handler ℕ) (known : Registry → Option ℕ) (w : IsSeeker h known) (fuel : ℕ) where
  abbrev pub asked : Control → Result (Unit {0}) × ℕ × Control
  asked c = lookup_or_insert_ctrl_msg fuel h (or_none (known c.registry)) c

  pub asked-known :
      (c c' : Control) (k : ℕ)
      → IsRegistry c.registry
      → answer (asked c) ≡ (ok k, c')
      → Fits c'.registry
      → k ≢ none64
      → IsRegistry c'.registry × (known c'.registry ≡ some k)
  asked-known c c' k t e f z =
      let (q, d) = answer-ok (asked c) k c' e in
      let settled =
        lookup_or_insert-Settled h known w fuel (or_none (known c.registry)) c
          (λ g. (t, or_none-Answer known c.registry)) in
      let settled' : Settled h known w (c'.registry, k) =
        subst (λ (x : ℕ × Control). Settled h known w (x.1.registry, x.0)) (pair_path q d)
          settled in
      let (t', a) = settled' f in
      (t', elim a [ inl missing ↦ absurd (z missing) | inr number ↦ number ])

  asked_again :
      (c : Control) (k : ℕ) → known c.registry ≡ some k → k ≢ none64 → answer (asked c) ≡ (ok k, c)
  asked_again c k q z =
      let first : or_none (known c.registry) ≡ k = ap or_none q in
      ap (λ j. answer (lookup_or_insert_ctrl_msg fuel h j c)) first
      ∙ ap answer (lookup_or_insert_known h known w fuel k c (is_found_lem k z))

-- From tables in which the names have the numbers from 256 on in order and none stands twice, when
-- ytp_control_peer_decl succeeds with a number other than 2 ^ 64 - 1 and the numbers fit a word,
-- then ytp_control_peer_name gives the declared name for it, a second declaration of the name
-- returns the same number and changes nothing, and the tables are of that form again.
pub ytp_control_peer_decl-name :
    (fuel : ℕ) (name : Name) (c c' : Control) (k : ℕ)
    → IsRegistry c.registry
    → ytp_control_peer_decl fuel name c ≡ (ok k, c')
    → Fits c'.registry
    → k ≢ none64
    → (ytp_control_peer_name c' k ≡ ok name)
      × (ytp_control_peer_decl fuel name c' ≡ (ok k, c'))
      × IsRegistry c'.registry
unfolding ytp_control_peer_decl ytp_control_peer_name peer_at
ytp_control_peer_decl-name fuel name c c' k t h f z =
    let w = peer_handler-IsSeeker fuel name in
    let seeker = peer_handler fuel name in
    let (t', q) = asked-known seeker (peer_known fuel name) w fuel c c' k t h f z in
    let n =
      number-name peer_off k c'.registry.peers c'.registry.name_to_peerid name t'.peers f.0 q in
    (
      rw (n, ytp_control_peer_name) refl,
      asked_again seeker (peer_known fuel name) w fuel c' k q z,
      t',
    )

-- The same of channels.
pub ytp_control_ch_decl-name :
    (fuel peer : ℕ) (name : Name) (c c' : Control) (k : ℕ)
    → IsRegistry c.registry
    → ytp_control_ch_decl fuel peer name c ≡ (ok k, c')
    → Fits c'.registry
    → k ≢ none64
    → (ytp_control_ch_name c' k ≡ ok name)
      × (ytp_control_ch_decl fuel peer name c' ≡ (ok k, c'))
      × IsRegistry c'.registry
unfolding ytp_control_ch_decl ytp_control_ch_name channel_at
ytp_control_ch_decl-name fuel peer name c c' k t h f z =
    let w = channel_handler-IsSeeker fuel peer name in
    let seeker = channel_handler fuel peer name in
    let (t', q) = asked-known seeker (channel_known fuel peer name) w fuel c c' k t h f z in
    let n =
      number-name channel_off k c'.registry.channels c'.registry.name_to_channelid name t'.channels
        f.1 q in
    (
      rw (n, ytp_control_ch_name) refl,
      asked_again seeker (channel_known fuel peer name) w fuel c' k q z,
      t',
    )
