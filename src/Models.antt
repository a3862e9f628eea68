-- ===== src/Models.antt =====
-- src/models.rs: the names under which the domain's enumerations are stored, and their parsers.
pub mod RoundTrips
mod Examples
use solana_whale_intelligenc.Prelude.{
  Bool, true, false, Option, none, some, List, [], ◌∷◌, String, str_eq, if◌then◌else◌,
}
use solana_whale_intelligenc.Prelude.Strings.{trim, to_ascii_lowercase}

-- A `match` on a text: the first arm of that text, or `None`.
abbrev pub arm {ℓ} : {A : Type ℓ} → List (String × A) → String → Option A
arm [] value = none
arm ((name, a) ∷ arms) value = if str_eq value name then some a else arm arms value

pub data ChainKind : Type 0 where
  solana robinhood : ChainKind

unfoldable pub chain_str : ChainKind → String
chain_str ChainKind.solana = "solana"
chain_str ChainKind.robinhood = "robinhood"

unfoldable pub parse_chain : String → Option ChainKind
parse_chain value =
    arm
      (("solana", ChainKind.solana)
        ∷ ("sol", ChainKind.solana)
        ∷ ("robinhood", ChainKind.robinhood)
        ∷ ("rh", ChainKind.robinhood)
        ∷ [])
      (to_ascii_lowercase (trim value))

pub data Commitment : Type 0 where
  processed confirmed finalized : Commitment

unfoldable pub commitment_str : Commitment → String
commitment_str Commitment.processed = "processed"
commitment_str Commitment.confirmed = "confirmed"
commitment_str Commitment.finalized = "finalized"

unfoldable pub parse_commitment : String → Option Commitment
parse_commitment value =
    arm
      (("processed", Commitment.processed)
        ∷ ("confirmed", Commitment.confirmed)
        ∷ ("finalized", Commitment.finalized)
        ∷ [])
      (to_ascii_lowercase (trim value))

pub data WalletLabelKind : Type 0 where
  smart_degen sniper bundler rat_trader dex_bot mev_bot : WalletLabelKind
  fresh_wallet dev insider arbitrage copy_trader market_maker : WalletLabelKind
  exchange bridge kuiper_exchange project : WalletLabelKind

unfoldable pub label_str : WalletLabelKind → String
label_str WalletLabelKind.smart_degen = "smart_degen"
label_str WalletLabelKind.sniper = "sniper"
label_str WalletLabelKind.bundler = "bundler"
label_str WalletLabelKind.rat_trader = "rat_trader"
label_str WalletLabelKind.dex_bot = "dex_bot"
label_str WalletLabelKind.mev_bot = "mev_bot"
label_str WalletLabelKind.fresh_wallet = "fresh_wallet"
label_str WalletLabelKind.dev = "dev"
label_str WalletLabelKind.insider = "insider"
label_str WalletLabelKind.arbitrage = "arbitrage"
label_str WalletLabelKind.copy_trader = "copy_trader"
label_str WalletLabelKind.market_maker = "market_maker"
label_str WalletLabelKind.exchange = "exchange"
label_str WalletLabelKind.bridge = "bridge"
label_str WalletLabelKind.kuiper_exchange = "kuiper_exchange"
label_str WalletLabelKind.project = "project"

unfoldable pub parse_label : String → Option WalletLabelKind
parse_label value =
    arm
      (("smart_degen", WalletLabelKind.smart_degen)
        ∷ ("smartdegen", WalletLabelKind.smart_degen)
        ∷ ("sniper", WalletLabelKind.sniper)
        ∷ ("bundler", WalletLabelKind.bundler)
        ∷ ("rat_trader", WalletLabelKind.rat_trader)
        ∷ ("rattrader", WalletLabelKind.rat_trader)
        ∷ ("dex_bot", WalletLabelKind.dex_bot)
        ∷ ("dexbot", WalletLabelKind.dex_bot)
        ∷ ("mev_bot", WalletLabelKind.mev_bot)
        ∷ ("mevbot", WalletLabelKind.mev_bot)
        ∷ ("mev", WalletLabelKind.mev_bot)
        ∷ ("fresh_wallet", WalletLabelKind.fresh_wallet)
        ∷ ("freshwallet", WalletLabelKind.fresh_wallet)
        ∷ ("dev", WalletLabelKind.dev)
        ∷ ("developer", WalletLabelKind.dev)
        ∷ ("creator", WalletLabelKind.dev)
        ∷ ("insider", WalletLabelKind.insider)
        ∷ ("arbitrage", WalletLabelKind.arbitrage)
        ∷ ("copy_trader", WalletLabelKind.copy_trader)
        ∷ ("copytrader", WalletLabelKind.copy_trader)
        ∷ ("market_maker", WalletLabelKind.market_maker)
        ∷ ("marketmaker", WalletLabelKind.market_maker)
        ∷ ("exchange", WalletLabelKind.exchange)
        ∷ ("cex", WalletLabelKind.exchange)
        ∷ ("bridge", WalletLabelKind.bridge)
        ∷ ("kuiper_exchange", WalletLabelKind.kuiper_exchange)
        ∷ ("kuiper", WalletLabelKind.kuiper_exchange)
        ∷ ("project", WalletLabelKind.project)
        ∷ [])
      (to_ascii_lowercase (trim value))

pub data Disposition : Type 0 where
  score watch flow_only skip : Disposition

unfoldable pub disposition_str : Disposition → String
disposition_str Disposition.score = "score"
disposition_str Disposition.watch = "watch"
disposition_str Disposition.flow_only = "flow_only"
disposition_str Disposition.skip = "skip"

unfoldable pub parse_disposition : String → Option Disposition
parse_disposition value =
    arm
      (("score", Disposition.score)
        ∷ ("watch", Disposition.watch)
        ∷ ("flow_only", Disposition.flow_only)
        ∷ ("flow-only", Disposition.flow_only)
        ∷ ("skip", Disposition.skip)
        ∷ ("block", Disposition.skip)
        ∷ [])
      (to_ascii_lowercase (trim value))

pub data LifecycleState : Type 0 where
  new_creation bonding_curve near_graduation graduated post_migration unsupported : LifecycleState

unfoldable pub lifecycle_str : LifecycleState → String
lifecycle_str LifecycleState.new_creation = "new_creation"
lifecycle_str LifecycleState.bonding_curve = "bonding_curve"
lifecycle_str LifecycleState.near_graduation = "near_graduation"
lifecycle_str LifecycleState.graduated = "graduated"
lifecycle_str LifecycleState.post_migration = "post_migration"
lifecycle_str LifecycleState.unsupported = "unsupported"

unfoldable pub parse_lifecycle : String → Option LifecycleState
parse_lifecycle value =
    arm
      (("new_creation", LifecycleState.new_creation)
        ∷ ("bonding_curve", LifecycleState.bonding_curve)
        ∷ ("near_graduation", LifecycleState.near_graduation)
        ∷ ("graduated", LifecycleState.graduated)
        ∷ ("post_migration", LifecycleState.post_migration)
        ∷ [])
      (to_ascii_lowercase (trim value))

-- Of `matches!`.
unfoldable pub entry_supported : LifecycleState → Bool
entry_supported LifecycleState.unsupported = false
entry_supported _ = true

pub data NarrativeCategory : Type 0 where
  ai defi dep_in meme celebrity political : NarrativeCategory
  gaming rwa solana_ecosystem launchpad community_takeover unknown : NarrativeCategory

unfoldable pub category_str : NarrativeCategory → String
category_str NarrativeCategory.ai = "ai"
category_str NarrativeCategory.defi = "defi"
category_str NarrativeCategory.dep_in = "dep_in"
category_str NarrativeCategory.meme = "meme"
category_str NarrativeCategory.celebrity = "celebrity"
category_str NarrativeCategory.political = "political"
category_str NarrativeCategory.gaming = "gaming"
category_str NarrativeCategory.rwa = "rwa"
category_str NarrativeCategory.solana_ecosystem = "solana_ecosystem"
category_str NarrativeCategory.launchpad = "launchpad"
category_str NarrativeCategory.community_takeover = "community_takeover"
category_str NarrativeCategory.unknown = "unknown"

unfoldable pub parse_category : String → Option NarrativeCategory
parse_category value =
    arm
      (("ai", NarrativeCategory.ai)
        ∷ ("defi", NarrativeCategory.defi)
        ∷ ("dep_in", NarrativeCategory.dep_in)
        ∷ ("depin", NarrativeCategory.dep_in)
        ∷ ("meme", NarrativeCategory.meme)
        ∷ ("celebrity", NarrativeCategory.celebrity)
        ∷ ("political", NarrativeCategory.political)
        ∷ ("gaming", NarrativeCategory.gaming)
        ∷ ("rwa", NarrativeCategory.rwa)
        ∷ ("solana_ecosystem", NarrativeCategory.solana_ecosystem)
        ∷ ("launchpad", NarrativeCategory.launchpad)
        ∷ ("community_takeover", NarrativeCategory.community_takeover)
        ∷ ("unknown", NarrativeCategory.unknown)
        ∷ [])
      (to_ascii_lowercase (trim value))

pub data RadarStage : Type 0 where
  funded preparation deployed dismissed : RadarStage

unfoldable pub stage_str : RadarStage → String
stage_str RadarStage.funded = "funded"
stage_str RadarStage.preparation = "preparation"
stage_str RadarStage.deployed = "deployed"
stage_str RadarStage.dismissed = "dismissed"

unfoldable pub parse_stage : String → Option RadarStage
parse_stage value =
    arm
      (("funded", RadarStage.funded)
        ∷ ("preparation", RadarStage.preparation)
        ∷ ("deployed", RadarStage.deployed)
        ∷ ("dismissed", RadarStage.dismissed)
        ∷ [])
      (to_ascii_lowercase (trim value))
