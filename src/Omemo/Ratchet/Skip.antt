-- ===== src/Omemo/Ratchet/Skip.antt =====
-- Skipping ahead in the receiving chain: the keys that are kept, and when the limit stops it.
use xmpp_go.Prelude.{
  ℕ, zero, suc, ◌+◌, ◌-◌, ◌%◌, ◌≤◌, ◌<◌, ◌≡◌, ◌≢◌, refl, sym, ap, subst, ◌∙◌, none, some, [], ◌∷◌,
  length, nat_eq, list_eq, pair_eq, eq_iff, eq_refl, arith,
}
use xmpp_go.Prelude.Bytes.{Bytes}
use xmpp_go.Prelude.Dict.{Dict, get, put, get-put}
use xmpp_go.Omemo.Primitives.{Primitives, message_key, next_chain_key}
use xmpp_go.Omemo.Ratchet.{
  RatchetState, SkippedKey, max_skipped_keys, u32, slice, copy_32, skip_one, skip_loop,
  skip_message_keys,
}

-- The chain key `n` messages on.
unfoldable pub chain_at : Primitives → ℕ → Bytes → Bytes
chain_at c zero ck = ck
chain_at c (suc n) ck = chain_at c n (next_chain_key c ck)

pub chain_at-suc :
    (c : Primitives) (n : ℕ) (ck : Bytes)
    → chain_at c (suc n) ck ≡ next_chain_key c (chain_at c n ck)
unfolding chain_at
chain_at-suc c zero ck = refl
chain_at-suc c (suc n) ck = chain_at-suc c n (next_chain_key c ck)

pub chain_at-add :
    (c : Primitives) (m n : ℕ) (ck : Bytes) → chain_at c n (chain_at c m ck) ≡ chain_at c (m + n) ck
unfolding chain_at
chain_at-add c zero n ck = let e : n ≡ 0 + n = omega arith in ap (λ k. chain_at c k ck) e
chain_at-add c (suc m) n ck =
    let e : suc (m + n) ≡ suc m + n = omega arith in
    chain_at-add c m n (next_chain_key c ck) ∙ ap (λ k. chain_at c k ck) e

-- `t` is `s` after `rounds` messages of its receiving chain `ck` were skipped: their keys are kept
-- under their numbers, and nothing else has changed.
pub record IsSkipped (c : Primitives) (ck : Bytes) (rounds : ℕ) (s t : RatchetState) : Type 0 where
  pub ckr : t.ckr ≡ some (chain_at c rounds ck)
  pub nr : t.nr ≡ s.nr + rounds
  pub dhr : t.dhr ≡ s.dhr
  pub sending : (t.dhs ≡ s.dhs) × (t.rk ≡ s.rk) × (t.cks ≡ s.cks) × (t.ns ≡ s.ns) × (t.pn ≡ s.pn)
  pub size : length t.mk_skipped ≤ length s.mk_skipped + rounds
  pub kept :
      (i : ℕ)
      → i < rounds
      → get t.mk_skipped (copy_32 (slice s.dhr), s.nr + i) ≡ some (message_key c (chain_at c i ck))
  pub others :
      (k : SkippedKey)
      → ((i : ℕ) → i < rounds → k ≢ (copy_32 (slice s.dhr), s.nr + i))
      → get t.mk_skipped k ≡ get s.mk_skipped k

pub length-put :
    (d : Dict SkippedKey Bytes) (k : SkippedKey) (v : Bytes) → length (put d k v) ≤ length d + 1
unfolding put
length-put [] k v = omega arith
length-put ((j, w) ∷ d) k v = ground (arith, length-put d k v)

module _ (c : Primitives) where
  no_rounds-IsSkipped : (ck : Bytes) (s : RatchetState) → s.ckr ≡ some ck → IsSkipped c ck 0 s s
  unfolding chain_at
  no_rounds-IsSkipped ck s e = record {
    ckr = e;
    nr = omega arith;
    dhr = refl;
    sending = (refl, refl, refl, refl, refl);
    size = omega arith;
    kept = λ i h. absurd (omega arith);
    others = λ k h. refl;
  }

  module _ (ck : Bytes) (rounds : ℕ) (s t : RatchetState) (e : s.ckr ≡ some ck)
      (b : s.nr + suc rounds < u32)
      (h : IsSkipped c (next_chain_key c ck) rounds (skip_one c s) t) where
    abbrev key : SkippedKey
    key = (copy_32 (slice s.dhr), s.nr)

    first_kept : get t.mk_skipped key ≡ some (message_key c ck)
    unfolding skip_one
    first_kept =
        h.others key (λ i hi p. absurd (omega (arith, ap (λ (x : SkippedKey). x.1) p)))
        ∙ get-put s.mk_skipped key key (message_key c (slice s.ckr))
        ∙ rw (eq_refl key, e)

    later_kept :
        (i : ℕ)
        → i < rounds
        → get t.mk_skipped (copy_32 (slice s.dhr), s.nr + suc i)
          ≡ some (message_key c (chain_at c i (next_chain_key c ck)))
    unfolding skip_one
    later_kept i hi =
        let there : (s.nr + 1) % u32 + i ≡ s.nr + suc i = omega arith in
        subst
          (λ n.
            get t.mk_skipped (copy_32 (slice s.dhr), n)
            ≡ some (message_key c (chain_at c i (next_chain_key c ck))))
          there (h.kept i hi)

    all_kept :
        (i : ℕ)
        → i < suc rounds
        → get t.mk_skipped (copy_32 (slice s.dhr), s.nr + i)
          ≡ some (message_key c (chain_at c i ck))
    unfolding chain_at
    all_kept zero hi =
        let here : s.nr ≡ s.nr + 0 = omega arith in
        subst (λ n. get t.mk_skipped (copy_32 (slice s.dhr), n) ≡ some (message_key c ck)) here
          first_kept
    all_kept (suc i) hi = later_kept i (omega arith)

    others_alike :
        (k : SkippedKey)
        → ((i : ℕ) → i < suc rounds → k ≢ (copy_32 (slice s.dhr), s.nr + i))
        → get t.mk_skipped k ≡ get s.mk_skipped k
    unfolding skip_one
    others_alike k differs =
        let here : s.nr ≡ s.nr + 0 = omega arith in
        let ne : k ≢ key =
          subst (λ n. k ≢ (copy_32 (slice s.dhr), n)) (sym here) (differs 0 (omega arith)) in
        h.others k (λ i hi.
          let there : s.nr + suc i ≡ (s.nr + 1) % u32 + i = omega arith in
          subst (λ n. k ≢ (copy_32 (slice s.dhr), n)) there (differs (suc i) (omega arith)))
        ∙ ground (
          arith,
          get-put s.mk_skipped key k (message_key c (slice s.ckr)),
          eq_iff key k,
          λ (p : key ≡ k). ne (sym p),
        )

    -- One round, then the rest.
    skip_one-step : IsSkipped c ck (suc rounds) s t
    unfolding skip_one chain_at
    skip_one-step = record {
      ckr = h.ckr;
      nr = omega (arith, h.nr);
      dhr = h.dhr;
      sending = h.sending;
      size = omega (
        arith,
        h.size,
        length-put s.mk_skipped (copy_32 (slice s.dhr), s.nr) (message_key c (slice s.ckr)),
      );
      kept = all_kept;
      others = others_alike;
    }

  -- Within the limit the loop ends without an error and has skipped every round.
  pub skip_loop-IsSkipped :
      (rounds : ℕ) (ck : Bytes) (s : RatchetState)
      → s.ckr ≡ some ck
      → s.nr + rounds < u32
      → length s.mk_skipped + rounds ≤ max_skipped_keys
      → (t : RatchetState) × (skip_loop c rounds s ≡ (t, none)) × IsSkipped c ck rounds s t
  unfolding skip_loop
  skip_loop-IsSkipped zero ck s e b fits = (s, refl, no_rounds-IsSkipped ck s e)
  skip_loop-IsSkipped (suc rounds) ck s e b fits =
      let size =
        length-put s.mk_skipped (copy_32 (slice s.dhr), s.nr) (message_key c (slice s.ckr)) in
      let (t, p, h) =
        skip_loop-IsSkipped rounds (next_chain_key c ck) (skip_one c s)
          (ap (λ k. some (next_chain_key c (slice k))) e) (omega arith) (omega arith) in
      (t, ground arith, skip_one-step ck rounds s t e b h)

  -- The same for the whole operation, from a state whose chain is `ck`, up to a message number ahead.
  pub skip_message_keys-IsSkipped :
      (ck : Bytes) (until : ℕ) (s : RatchetState)
      → s.ckr ≡ some ck
      → s.nr + max_skipped_keys < u32
      → s.nr ≤ until
      → length s.mk_skipped + (until - s.nr) ≤ max_skipped_keys
      → (t : RatchetState) × (skip_message_keys c until s ≡ (t, none))
        × IsSkipped c ck (until - s.nr) s t
  skip_message_keys-IsSkipped ck until s e b le fits =
      let (t, p, h) = skip_loop-IsSkipped (until - s.nr) ck s e (omega arith) fits in
      (t, unfold skip_message_keys in rw (e, skip_message_keys) (ground arith), h)
