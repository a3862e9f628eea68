-- ===== src/Helius/Usage.antt =====
-- `record_usage`: the counters of a minute.
use solana_whale_intelligenc.Prelude.{
  ◌≡◌, refl, sym, ap, ◌∙◌, ◌≤◌, ◌+◌, ◌-◌, ◌%◌, ◌&&◌, ℕ, zero, suc, Bool, true, false, if-keeps,
  List, [], ◌∷◌, ◌++◌, String, length, length-append, any, arith, if◌then◌else◌, ltb, ◌==◌, str_eq,
  ≡→str_eq,
}
use solana_whale_intelligenc.Helius.{ApiClass, is_class}

pub record UsageRecord : Type 0 where
  pub provider_id : String
  pub api_class : ApiClass
  pub window_start : ℕ  -- seconds
  pub request_count : ℕ  -- i64, which one more request does not overflow

-- `now.timestamp() - (now.timestamp() % 60)`
unfoldable pub window_of : ℕ → ℕ
window_of timestamp = timestamp - timestamp % 60

-- The test of `find`.
unfoldable pub is_counter : String → ApiClass → ℕ → UsageRecord → Bool
is_counter provider_id class window r =
    str_eq r.provider_id provider_id && is_class r.api_class class && r.window_start == window

-- The first counter that the test finds goes up by one.
unfoldable pub count_one : (UsageRecord → Bool) → List UsageRecord → List UsageRecord
count_one p [] = []
count_one p (r ∷ usage) =
    let rest = count_one p usage in
    if p r then record r { request_count = r.request_count + 1 } ∷ usage else r ∷ rest

-- `drain(0..n)`
unfoldable pub drain : ℕ → List UsageRecord → List UsageRecord
drain zero usage = usage
drain (suc n) [] = []
drain (suc n) (r ∷ usage) = drain n usage

unfoldable pub keep_bounded : List UsageRecord → List UsageRecord
keep_bounded usage = if ltb 10000 (length usage) then drain 5000 usage else usage

abbrev pub first_count : String → ApiClass → ℕ → UsageRecord
first_count provider_id class window = record {
  provider_id = provider_id;
  api_class = class;
  window_start = window;
  request_count = 1;
}

unfoldable pub record_usage : String → ApiClass → ℕ → List UsageRecord → List UsageRecord
record_usage provider_id class now usage =
    let window = window_of now in
    if any usage (is_counter provider_id class window)
    then count_one (is_counter provider_id class window) usage
    else keep_bounded (usage ++ first_count provider_id class window ∷ [])

-- What the first counter of a provider, a class and a minute says, and zero without one.
abbrev pub counted : (UsageRecord → Bool) → List UsageRecord → ℕ
counted p [] = 0
counted p (r ∷ usage) = let rest = counted p usage in if p r then r.request_count else rest

length-count_one :
    (p : UsageRecord → Bool) (usage : List UsageRecord) → length (count_one p usage) ≡ length usage
unfolding count_one
length-count_one p [] = refl
length-count_one p (r ∷ usage) = ground (arith, length-count_one p usage)

length-drain : (n : ℕ) (usage : List UsageRecord) → length (drain n usage) ≡ length usage - n
unfolding drain
length-drain zero usage = omega arith
length-drain (suc n) [] = omega arith
length-drain (suc n) (r ∷ usage) = omega (arith, length-drain n usage)

-- However many requests are recorded, there are at most 10,000 counters.
pub record_usage-bounded :
    (provider_id : String) (class : ApiClass) (now : ℕ) (usage : List UsageRecord)
    → length usage ≤ 10000
    → length (record_usage provider_id class now usage) ≤ 10000
unfolding record_usage keep_bounded
record_usage-bounded provider_id class now usage h = ground (
  arith,
  length-count_one (is_counter provider_id class (window_of now)) usage,
  length-append usage (first_count provider_id class (window_of now) ∷ []),
  length-drain 5000 (usage ++ first_count provider_id class (window_of now) ∷ []),
)

counted-count_one :
    (p : UsageRecord → Bool) (usage : List UsageRecord)
    → any usage p ≡ true
    → ((r : UsageRecord) → p (record r { request_count = r.request_count + 1 }) ≡ p r)
    → counted p (count_one p usage) ≡ counted p usage + 1
unfolding count_one
counted-count_one p [] h k = cc
counted-count_one p (r ∷ usage) h k = ground (arith, counted-count_one p usage, k r)

counted-none :
    (p : UsageRecord → Bool) (usage : List UsageRecord) → any usage p ≡ false → counted p usage ≡ 0
counted-none p [] h = refl
counted-none p (r ∷ usage) h = ground (arith, counted-none p usage)

counted-last :
    (p : UsageRecord → Bool) (usage : List UsageRecord) (r : UsageRecord)
    → any usage p ≡ false
    → p r ≡ true
    → counted p (usage ++ r ∷ []) ≡ r.request_count
counted-last p [] r h k = rw k refl
counted-last p (x ∷ usage) r h k = ground (arith, counted-last p usage r)

counted-drained :
    (n : ℕ) (p : UsageRecord → Bool) (usage : List UsageRecord) (r : UsageRecord)
    → any usage p ≡ false
    → p r ≡ true
    → n ≤ length usage
    → counted p (drain n (usage ++ r ∷ [])) ≡ r.request_count
unfolding drain
counted-drained zero p usage r h k l = counted-last p usage r h k
counted-drained (suc n) p [] r h k l = absurd (omega arith)
counted-drained (suc n) p (x ∷ usage) r h k l =
    counted-drained n p usage r (ground arith) k (omega arith)

enough : (n : ℕ) {m : ℕ} → m ≡ n + 1 → ltb 10000 m ≡ true → 5000 ≤ n
enough n e h = ground arith

kept_count :
    (p : UsageRecord → Bool) (usage : List UsageRecord) (r : UsageRecord)
    → any usage p ≡ false
    → p r ≡ true
    → counted p (keep_bounded (usage ++ r ∷ [])) ≡ r.request_count
unfolding keep_bounded
kept_count p usage r h k =
    if-keeps (λ l. counted p l ≡ r.request_count) (ltb 10000 (length (usage ++ r ∷ [])))
      (λ e.
        counted-drained 5000 p usage r h k (enough (length usage) (length-append usage (r ∷ [])) e))
      (λ _. counted-last p usage r h k)

own_counter :
    (provider_id : String) (class : ApiClass) (window : ℕ)
    → is_counter provider_id class window (first_count provider_id class window) ≡ true
unfolding is_counter
own_counter provider_id class window = grind (arith, ≡→str_eq)

-- One more request adds one to the counter of its provider, class and minute, also where the oldest
-- counters are dropped.
pub record_usage-counted :
    (provider_id : String) (class : ApiClass) (now : ℕ) (usage : List UsageRecord)
    → counted
        (is_counter provider_id class (window_of now))
        (record_usage provider_id class now usage)
      ≡ counted (is_counter provider_id class (window_of now)) usage + 1
unfolding record_usage is_counter
record_usage-counted provider_id class now usage =
    let p = is_counter provider_id class (window_of now) in
    let new = first_count provider_id class (window_of now) in
    if-keeps (λ l. counted p l ≡ counted p usage + 1) (any usage p)
      (λ e. counted-count_one p usage e (λ r. refl))
      (λ e.
        kept_count p usage new e (own_counter provider_id class (window_of now))
        ∙ sym (ap (λ n. n + 1) (counted-none p usage e)))
