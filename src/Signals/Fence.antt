-- ===== src/Signals/Fence.antt =====
-- The claim that fences the writes of an evaluation.
use solana_whale_intelligenc.Prelude.{
  ℕ, suc, ◌+◌, ◌≡◌, refl, subst, true, false, not, ◌&&◌, Option, none, some, List, [], ◌∷◌, String,
  any, filter, length, length-append, if-keeps, arith,
}
use mathlib.Core.Option.{some-injective, none-ne-some}
use solana_whale_intelligenc.Prelude.Int.{ℤ, ltb_ℤ}
use solana_whale_intelligenc.Signals.{
  SignalStore, Subject, EvalClaim, record_evaluation, insert_signal, write_outcome, is_claim,
  owns_claim, release_eval_claim, fenced,
}

-- How many signals an outcome inserts.
abbrev pub accepted : Option String → ℕ
accepted none = 1
accepted (some code) = 0

outcome-rows :
    (s : SignalStore) (about : Subject) (kind : String) (code : Option String) (score : ℕ)
    → (length (write_outcome s about kind code score).0.evaluations ≡ suc (length s.evaluations))
      × (length (write_outcome s about kind code score).0.signals
          ≡ length s.signals + accepted code)
unfolding write_outcome record_evaluation insert_signal
outcome-rows s about kind (some code) score =
    (omega (arith, length-append s.evaluations _), omega arith)
outcome-rows s about kind none score =
    (omega (arith, length-append s.evaluations _), omega (arith, length-append s.signals _))

released :
    (about : Subject) (token : String) (clock : ℤ) (claims : List EvalClaim)
    → any
        (filter (λ c. not (is_claim about token c)) claims)
        (λ c. is_claim about token c && ltb_ℤ clock c.expires_at)
      ≡ false
released about token clock [] = refl
released about token clock (c ∷ claims) = ground (arith, released about token clock claims)

refused :
    (t : SignalStore) (about : Subject) (token : String) (later : ℤ) (kind : String)
    (code : Option String) (score : ℕ)
    → any t.claims (λ c. is_claim about token c && ltb_ℤ later c.expires_at) ≡ false
    → fenced t about token later kind code score ≡ none
unfolding fenced owns_claim
refused t about token later kind code score h = simp h refl

abbrev pub Written : SignalStore → Subject → String → ℤ → Option String → SignalStore → Type 0
Written s about token clock code t =
    (owns_claim s about token clock ≡ true)
    × (length t.evaluations ≡ suc (length s.evaluations))
    × (length t.signals ≡ length s.signals + accepted code)
    × ((later : ℤ) (kind : String) (code : Option String) (score : ℕ)
        → fenced t about token later kind code score ≡ none)

-- An evaluation that writes held an unexpired claim; it writes one evaluation row, and one signal
-- row exactly when it has no rejection code; and it leaves its claim to nobody: whatever is asked under
-- the same claim after it, at whatever time, is refused and writes nothing.
pub fenced-once :
    (s : SignalStore) (about : Subject) (token : String) (clock : ℤ) (kind : String)
    (code : Option String) (score : ℕ) (t : SignalStore) (out : Option ℕ)
    → fenced s about token clock kind code score ≡ some (t, out)
    → Written s about token clock code t
unfolding fenced release_eval_claim owns_claim
fenced-once s about token clock kind code score t out =
    let (done, result) = write_outcome s about kind code score in
    let (rows, signals) = outcome-rows s about kind code score in
    if-keeps (λ o. o ≡ some (t, out) → Written s about token clock code t)
      (owns_claim s about token clock)
      (λ w q.
        subst (λ (p : SignalStore × Option ℕ). Written s about token clock code p.0)
          (some-injective _ _ q)
          (
            w,
            rows,
            signals,
            λ later kind' code' score'.
                refused (release_eval_claim done about token) about token later kind' code' score'
                  (released about token later done.claims),
          ))
      (λ _ q. absurd (none-ne-some _ q))
