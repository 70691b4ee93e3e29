-- ===== src/Audit/Chain/Evidence.antt =====
-- What an accepted log proves, and what breaks it.
use accounting.Audit.Chain.{IsChain, IsChain-reverse_aux, IsChain-seq_le, head_hash}
use accounting.Audit.Chain.Recorded.{IsLog, all_events-save_event, fill_chain-IsChain}
use accounting.Audit.Hashes.{by_seq, event_hash, fill_chain, payload, payload_hash, verify_chain}
use accounting.Audit.Model.{Codec, Event, Payload, RecordRequest}
use accounting.Audit.Service.{new_event, prepare}
use accounting.Audit.Store.{AuditStore, all_events, save_event}
use accounting.Prelude.{
  All, List, [], ap, arith, inl, inr, length, length-sort_by, map, refl, reverse, reverse_aux,
  sort_by, sort_by-All, subst, sym, ℕ, ◌+◌, ◌<◌, ◌∙◌, ◌∷◌, ◌≡◌, ◌≢◌, ◌≤◌, ◌⊎◌,
}
use accounting.Prelude.Result.{ok}
use accounting.Prelude.Text.{Text}
use accounting.Prelude.Word.{sign_bit}
use mathlib.Core.HLevel.{Discrete}
use native.Mathlib.Decide.{ℕ_discrete}

length-reverse_aux : (es done : List Event) → length (reverse_aux es done) ≡ length es + length done
length-reverse_aux [] done = omega arith
length-reverse_aux (e ∷ es) done = omega (arith, length-reverse_aux es (e ∷ done))

All-reverse_aux :
    (P : Event → Type 0) (es done : List Event)
    → All P es
    → All P done
    → All P (reverse_aux es done)
All-reverse_aux P [] done h k = k
All-reverse_aux P (e ∷ es) done h k = All-reverse_aux P es (e ∷ done) h.1 (h.0, k)

-- The events in the order of their numbers, the newest first.
abbrev pub newest_first : List Event → List Event
newest_first es = reverse (sort_by by_seq es)

length-newest_first : (es : List Event) → length (newest_first es) ≡ length es
length-newest_first es =
    omega (arith, length-reverse_aux (sort_by by_seq es) [], length-sort_by by_seq es)

newest_first-IsChain :
    (c : Codec) (es : List Event) → verify_chain c es ≡ ok tt → IsChain c (newest_first es)
unfolding verify_chain
newest_first-IsChain c es h = IsChain-reverse_aux c (sort_by by_seq es) [] tt h

IsChain-length_le :
    (c : Codec) (es : List Event) (n : ℕ)
    → IsChain c es
    → All (λ e. e.seq ≤ n) es
    → length es < sign_bit
    → length es ≤ n
IsChain-length_le c [] n h k small = omega arith
IsChain-length_le c (e ∷ es) n h k small = omega (arith, h.0, k.0)

prepared_seq :
    (c : Codec) (r : RecordRequest) (id : Text) (now : ℕ) (e : Event) (s : AuditStore)
    → IsLog c s
    → length (all_events s) + 2 < sign_bit
    → prepare c r id now s ≡ ok e
    → e.seq ≡ length (all_events s) + 1
unfolding prepare
prepared_seq c r id now e s log few h =
    let filled : fill_chain c (new_event c r id now) s ≡ ok e = ground arith in
    omega (arith, (fill_chain-IsChain c (new_event c r id now) e s refl filled log).0)

-- Two requests that both read the tail before either of them saves: the verification does not
-- accept the log afterwards.
pub race-verify_chain :
    (c : Codec) (q r : RecordRequest) (i j : Text) (t u : ℕ) (d e : Event) (s : AuditStore)
    → IsLog c s
    → length (all_events s) + 2 < sign_bit
    → prepare c q i t s ≡ ok d
    → prepare c r j u s ≡ ok e
    → verify_chain c (all_events (save_event e (save_event d s).1).1) ≢ ok tt
race-verify_chain c q r i j t u d e s log few hd he h =
    let n = length (all_events s) + 1 in
    let both = e ∷ d ∷ all_events s in
    let same : all_events (save_event e (save_event d s).1).1 ≡ both =
      all_events-save_event e (save_event d s).1 ∙ ap (◌∷◌ e) (all_events-save_event d s) in
    let low : All (λ x. x.seq ≤ n) both = (
      omega (arith, prepared_seq c r j u e s log few he),
      (
        omega (arith, prepared_seq c q i t d s log few hd),
        IsChain-seq_le c (all_events s) n log (omega arith) (omega arith),
      ),
    ) in
    let chain = newest_first-IsChain c both (subst (λ es. verify_chain c es ≡ ok tt) same h) in
    let sorted =
      All-reverse_aux (λ x. x.seq ≤ n) (sort_by by_seq both) []
        (sort_by-All (λ x. x.seq ≤ n) by_seq both low) tt in
    absurd (
      omega (
        arith,
        length-newest_first both,
        IsChain-length_le c (newest_first both) n chain sorted
            (omega (arith, length-newest_first both)),
      ))

Payload-discrete : Discrete Payload
Payload-discrete = hlevel ℕ_discrete

-- Two payloads with one hash.
abbrev pub Collision : Codec → Type 0
Collision c =
    (p : Payload) × (q : Payload) × (h : Text) × (p ≢ q)
    × (payload_hash c p ≡ ok h)
    × (payload_hash c q ≡ ok h)

same_chains :
    (c : Codec) (xs ys : List Event)
    → IsChain c xs
    → IsChain c ys
    → length xs ≡ length ys
    → head_hash xs ≡ head_hash ys
    → (map (payload c) xs ≡ map (payload c) ys) ⊎ Collision c
unfolding event_hash
same_chains c [] [] h k l e = inl refl
same_chains c [] (y ∷ ys) h k l e = absurd (omega arith)
same_chains c (x ∷ xs) [] h k l e = absurd (omega arith)
same_chains c (x ∷ xs) (y ∷ ys) h k l e = elim (Payload-discrete (payload c x) (payload c y)) [
  | no distinct ↦ inr (payload c x, payload c y, x.hash, distinct, h.2, rw e k.2)
  | yes same ↦
      let before : head_hash xs ≡ head_hash ys = sym h.1 ∙ ap (λ p. p.prev_hash) same ∙ k.1 in
      elim (same_chains c xs ys h.3 k.3 (omega arith) before) [
        | inr clash ↦ inr clash
        | inl rest ↦ inl (cc)
      ]
]

-- Two logs that the verification accepts, of one length and with one hash at their end, hold the
-- same events (in what is hashed of them), or two different payloads with one hash are at hand.
pub verify_chain_determines :
    (c : Codec) (xs ys : List Event)
    → verify_chain c xs ≡ ok tt
    → verify_chain c ys ≡ ok tt
    → length xs ≡ length ys
    → head_hash (newest_first xs) ≡ head_hash (newest_first ys)
    → (map (payload c) (newest_first xs) ≡ map (payload c) (newest_first ys)) ⊎ Collision c
verify_chain_determines c xs ys h k l e =
    same_chains c (newest_first xs) (newest_first ys) (newest_first-IsChain c xs h)
      (newest_first-IsChain c ys k) (omega (arith, length-newest_first xs, length-newest_first ys))
      e
